-- ===== src/Reconciler/Kinds.antt =====
-- The four kinds of objects that the reconciler writes, as one interface: what the client does with
-- an object of the kind, and the synchronising function.
use picodata_operator.Base.{
  String, ◌≡◌, refl, List, [], ◌∷◌, ◌++◌, ◌⊎◌, inl, inr, Bool, true, false, if◌then◌else◌,
}
use picodata_operator.Kube.Platform.{Platform}
use picodata_operator.Kube.Meta.{NamespacedName, ObjectMeta}
use picodata_operator.Kube.Objects.{ConfigMap, Service, Ingress, StatefulSet}
use picodata_operator.Api.{PicoclusterDb}
use picodata_operator.World.Errors.{GoError, ok, is_not_found}
use picodata_operator.World.Calls.{
  Call, Env, get_config_map, create_config_map, patch_config_map, get_service, create_service,
  patch_service, get_ingress, create_ingress, patch_ingress, get_stateful_set, create_stateful_set,
  patch_stateful_set,
}
use picodata_operator.World.Exec.{Exec, give, wrapped, attempt, perform, raise, ◌>>=◌}
use picodata_operator.World.Follows.{Answers}
use picodata_operator.World.Makes.{Makes}
use picodata_operator.World.Posts.{
  Post, Post-give, Post-wrapped, Post-bind, Post-attempt, Post-Makes, Post-raise, Refuses,
}
use picodata_operator.Reconciler.Resources.{
  key_of, create_or_patch, sync_config_map, sync_service, sync_ingress, sync_stateful_set,
}

module _ ⦃K : Platform⦄ ⦃E : Env⦄ where
  pub record ResourceKind (D : Type 0) : Type 0 where
    pub meta_of : D → ObjectMeta
    pub with_meta : D → ObjectMeta → D
    pub sync : D → D → D
    pub get : NamespacedName → Call
    pub create : D → Call
    pub patch : D → D → Call
    pub fetch : NamespacedName → Exec D
    pub make : D → Exec (Unit {0})
    pub change : D → D → Exec (Unit {0})
    pub fetch-calls : (key : NamespacedName) (w : E.W) → (fetch key w).calls ≡ get key ∷ []
    pub make-Makes : (d : D) → Makes (make d) (create d ∷ [])
    pub change-Makes : (old new : D) → Makes (change old new) (patch old new ∷ [])

  module _ {D : Type 0} (kind : ResourceKind D) where
    -- `Get`, and then `Create` or `Patch`.
    unfoldable pub apply : D → Exec (Unit {0})
    apply d = do
      existing ← attempt (kind.fetch (key_of (kind.meta_of d)))
      create_or_patch (kind.make d) (λ old. kind.change old (kind.sync d old)) existing

    -- The object with its owner, applied.
    unfoldable pub apply_owned : PicoclusterDb → String → D → Exec (Unit {0})
    apply_owned cluster text d = do
      meta ← give (E.set_controller_reference cluster (kind.meta_of d))
      wrapped text (apply (kind.with_meta d meta))

    -- `Get` finds the object.
    abbrev pub IsFound : E.W → D → Type 0
    IsFound w d = (old : D) × ((kind.fetch (key_of (kind.meta_of d)) w).outcome ≡ ok old)

    -- The calls that apply an object: one that is not found is created, one that is found is patched
    -- to what the synchronising function makes of it.
    abbrev pub IsWritten : D → List Call → Type 0
    IsWritten d cs =
        let key = key_of (kind.meta_of d) in
        ((e : GoError) × Refuses (kind.fetch key) e
          × (is_not_found e ≡ true)
          × (cs ≡ kind.get key ∷ kind.create d ∷ []))
        ⊎ ((old : D) × Answers (kind.fetch key) old
            × (cs ≡ kind.get key ∷ kind.patch old (kind.sync d old) ∷ []))

    -- The object is written with the metadata that `SetControllerReference` gives it.
    abbrev pub IsApplied : PicoclusterDb → D → List Call → Type 0
    IsApplied cluster d cs =
        (own : ObjectMeta) × (E.set_controller_reference cluster (kind.meta_of d) ≡ ok own)
        × IsWritten (kind.with_meta d own) cs

    apply-IsWritten : (d : D) → Post (apply d) (λ _ cs. IsWritten d cs)
    unfolding apply create_or_patch
    apply-IsWritten d =
        Post-bind _ _
          (Post-attempt (kind.fetch key) (kind.get key ∷ []) {R = Told} (kind.fetch-calls key)
            (λ old h. (refl, h)) (λ e h. (refl, h)))
          written
      where
        key : NamespacedName
        key = key_of (kind.meta_of d)

        Told : D ⊎ GoError → List Call → Type 0
        Told (inl old) cs = (cs ≡ kind.get key ∷ []) × Answers (kind.fetch key) old
        Told (inr e) cs = (cs ≡ kind.get key ∷ []) × Refuses (kind.fetch key) e

        written :
            (r : D ⊎ GoError) (cs : List Call)
            → Told r cs
            → Post
                (create_or_patch (kind.make d) (λ old. kind.change old (kind.sync d old)) r)
                (λ _ ds. IsWritten d (cs ++ ds))
        written (inl old) cs (e, h) =
            Post-Makes _ (kind.change-Makes old (kind.sync d old)) (λ _. inr (old, h, rw e refl))
        written (inr x) cs (e, h) = missing (is_not_found x) refl
          where
            missing :
                (b : Bool)
                → is_not_found x ≡ b
                → Post (if b then kind.make d else raise x) (λ _ ds. IsWritten d (cs ++ ds))
            missing true n = Post-Makes _ (kind.make-Makes d) (λ _. inl (x, h, n, rw e refl))
            missing false n = Post-raise x

    pub apply_owned-IsApplied :
        (cluster : PicoclusterDb) (text : String) (d : D)
        → Post (apply_owned cluster text d) (λ _ cs. IsApplied cluster d cs)
    unfolding apply_owned
    apply_owned-IsApplied cluster text d =
        Post-bind _ _ (Post-give _ {R = Given} (λ own e. (refl, e))) given
      where
        Given : ObjectMeta → List Call → Type 0
        Given own cs = (cs ≡ []) × (E.set_controller_reference cluster (kind.meta_of d) ≡ ok own)

        given :
            (own : ObjectMeta) (cs : List Call)
            → Given own cs
            → Post
                (wrapped text (apply (kind.with_meta d own)))
                (λ _ ds. IsApplied cluster d (cs ++ ds))
        given own cs (e, h) = Post-wrapped text _ (record {
          at = λ w a well. (own, h, rw e ((apply-IsWritten (kind.with_meta d own)).at w a well));
        })

module _ ⦃K : Platform⦄ ⦃E : Env⦄ where
  pub perform-calls : (c : Call) (w : E.W) → (perform c w).calls ≡ c ∷ []
  unfolding perform
  perform-calls c w = refl

  pub perform-Makes : (c : Call) → Makes (perform c) (c ∷ [])
  perform-Makes c = record { at = λ w a e. perform-calls c w }

  abbrev pub config_maps : ResourceKind ConfigMap
  config_maps = record {
    meta_of = λ (d : ConfigMap). d.meta;
    with_meta = λ (d : ConfigMap) meta. record d { meta = meta };
    sync = sync_config_map;
    get = get_config_map;
    create = create_config_map;
    patch = patch_config_map;
    fetch = λ key. perform (get_config_map key);
    make = λ d. perform (create_config_map d);
    change = λ old new. perform (patch_config_map old new);
    fetch-calls = λ key. perform-calls (get_config_map key);
    make-Makes = λ d. perform-Makes (create_config_map d);
    change-Makes = λ old new. perform-Makes (patch_config_map old new);
  }

  abbrev pub services : ResourceKind Service
  services = record {
    meta_of = λ (d : Service). d.meta;
    with_meta = λ (d : Service) meta. record d { meta = meta };
    sync = sync_service;
    get = get_service;
    create = create_service;
    patch = patch_service;
    fetch = λ key. perform (get_service key);
    make = λ d. perform (create_service d);
    change = λ old new. perform (patch_service old new);
    fetch-calls = λ key. perform-calls (get_service key);
    make-Makes = λ d. perform-Makes (create_service d);
    change-Makes = λ old new. perform-Makes (patch_service old new);
  }

  abbrev pub ingresses : ResourceKind Ingress
  ingresses = record {
    meta_of = λ (d : Ingress). d.meta;
    with_meta = λ (d : Ingress) meta. record d { meta = meta };
    sync = sync_ingress;
    get = get_ingress;
    create = create_ingress;
    patch = patch_ingress;
    fetch = λ key. perform (get_ingress key);
    make = λ d. perform (create_ingress d);
    change = λ old new. perform (patch_ingress old new);
    fetch-calls = λ key. perform-calls (get_ingress key);
    make-Makes = λ d. perform-Makes (create_ingress d);
    change-Makes = λ old new. perform-Makes (patch_ingress old new);
  }

  abbrev pub stateful_sets : ResourceKind StatefulSet
  stateful_sets = record {
    meta_of = λ (d : StatefulSet). d.meta;
    with_meta = λ (d : StatefulSet) meta. record d { meta = meta };
    sync = sync_stateful_set;
    get = get_stateful_set;
    create = create_stateful_set;
    patch = patch_stateful_set;
    fetch = λ key. perform (get_stateful_set key);
    make = λ d. perform (create_stateful_set d);
    change = λ old new. perform (patch_stateful_set old new);
    fetch-calls = λ key. perform-calls (get_stateful_set key);
    make-Makes = λ d. perform-Makes (create_stateful_set d);
    change-Makes = λ old new. perform-Makes (patch_stateful_set old new);
  }
