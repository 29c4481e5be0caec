-- ===== src/Api.antt =====
-- api/v1/picoclusterdb_types.go: the resource `PicoclusterDB`, its spec (the module `Spec`) and its
-- status (`Status`).
pub mod Spec
pub mod Status
use picodata_operator.Base.{List}
use picodata_operator.Kube.Platform.{Platform}
use picodata_operator.Kube.Meta.{ObjectMeta}
use Spec.{PicoclusterDbSpec}
use Status.{PicoclusterDbStatus}

module _ ⦃K : Platform⦄ where
  -- `type_meta` is the kind and the version of the API.
  pub record PicoclusterDb : Type 0 where
    pub type_meta : K.Fields
    pub meta : ObjectMeta
    pub spec : PicoclusterDbSpec
    pub status : PicoclusterDbStatus

  pub record PicoclusterDbList : Type 0 where
    pub type_meta : K.Fields
    pub list_meta : K.Fields
    pub items : List PicoclusterDb
