-- ===== src/Plugins/Secrets.antt =====
-- internal/controller/plugin.go: `getAdminPassword`.
use picodata_operator.Base.{String, Option, none, some, ◌∷◌, []}
use picodata_operator.Base.Text.{concat}
use picodata_operator.Base.Maps.{lookup}
use picodata_operator.Kube.Platform.{Platform}
use picodata_operator.Api.{PicoclusterDb}
use picodata_operator.World.Errors.{failed}
use picodata_operator.World.Calls.{Env, get_secret}
use picodata_operator.World.Exec.{Exec, pure, raise, perform, ◌>>=◌}

module _ ⦃K : Platform⦄ ⦃E : Env⦄ where
  unfoldable pub found_or_missing : String → String → Option String → Exec String
  found_or_missing key secret_name none =
      raise (
        failed (concat ("key " ∷ K.quote key ∷ " not found in secret " ∷ K.quote secret_name ∷ [])))
  found_or_missing key secret_name (some val) = pure val

  unfoldable pub get_admin_password : PicoclusterDb → Exec String
  unfolding found_or_missing
  get_admin_password cluster = do
    let ref = cluster.spec.admin_password
    secret ←
        perform (get_secret (record { name = ref.secret_name; namespace = cluster.meta.namespace }))
    found_or_missing ref.key ref.secret_name (lookup ref.key secret.contents)
