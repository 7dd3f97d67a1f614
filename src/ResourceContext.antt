-- ===== src/ResourceContext.antt =====
-- pkg/cel/ctxprovider/provider.go: how policies read and create Kubernetes resources. The dynamic client and the
-- parsing of an API version are the record `Client`. pkg/engine/variables/imagedata.go: the data of images, over the
-- loader `Images` of them.
use kyverno_http_authorizer.Base.{String, List, ◌⊎◌, inl, inr, not, ◌==◌, if◌then◌else◌}

pub record Client (E : Type 0) : Type 1 where
  pub GroupVersion : Type 0
  pub ResourceInterface : Type 0
  pub Object : Type 0
  pub ObjectList : Type 0
  pub Data : Type 0
  -- schema.ParseGroupVersion
  pub parse_group_version : String → E ⊎ GroupVersion
  -- Resource of the dynamic client on a group version with a resource, and Namespace.
  pub resource_client : GroupVersion → String → ResourceInterface
  pub in_namespace : ResourceInterface → String → ResourceInterface
  pub list : ResourceInterface → E ⊎ ObjectList
  pub get : ResourceInterface → String → E ⊎ Object
  pub create : ResourceInterface → Data → E ⊎ Object

module _ {E : Type 0} (c : Client E) where
  open c use {
    GroupVersion, ResourceInterface, Object, ObjectList, Data, parse_group_version, resource_client,
    in_namespace, list, get, create,
  }

  -- getResourceClient
  unfoldable get_resource_client : GroupVersion → String → String → ResourceInterface
  get_resource_client group_version resource namespace =
      let client = resource_client group_version resource in
      if not (namespace == "") then in_namespace client namespace else client

  -- A call on the client of a resource, unless the API version does not parse.
  abbrev with_client : {A : Type 0} → String → String → String → (ResourceInterface → E ⊎ A) → E ⊎ A
  with_client api_version resource namespace next = elim (parse_group_version api_version) [
    | inl e ↦ inl e
    | inr group_version ↦ next (get_resource_client group_version resource namespace)
  ]

  -- ListResources
  unfoldable list_resources : String → String → String → E ⊎ ObjectList
  unfolding get_resource_client
  list_resources api_version resource namespace = with_client api_version resource namespace list

  -- GetResource
  unfoldable get_resource : String → String → String → String → E ⊎ Object
  unfolding get_resource_client
  get_resource api_version resource namespace name =
      with_client api_version resource namespace (λ client. get client name)

  -- PostResource
  unfoldable post_resource : String → String → String → Data → E ⊎ Object
  unfolding get_resource_client
  post_resource api_version resource namespace fields =
      with_client api_version resource namespace (λ client. create client fields)

-- imagedataloader.New, its Fetcher with FetchImageData, Data of what that returns, and GetValue of kyverno's utils.
pub record Images (E : Type 0) : Type 1 where
  pub SecretInterface : Type 0
  pub LoaderOption : Type 0
  pub Fetcher : Type 0
  pub Image : Type 0
  pub Fields : Type 0
  pub Data : Type 0
  pub new_loader : SecretInterface → List LoaderOption → E ⊎ Fetcher
  pub fetch_image_data : Fetcher → String → E ⊎ Image
  pub image_fields : Image → Fields
  pub get_value : Fields → E ⊎ Data

-- imageData
record ImageData (Fetcher : Type 0) : Type 0 where
  pub imagedata : Fetcher

module _ {E : Type 0} (images : Images E) where
  open images use {
    SecretInterface, LoaderOption, Fetcher, Data, new_loader, fetch_image_data, image_fields,
    get_value,
  }

  -- ImageData
  unfoldable image_data : SecretInterface → List LoaderOption → E ⊎ ImageData Fetcher
  image_data lister image_opts = elim (new_loader lister image_opts) [
    | inl e ↦ inl e
    | inr idl ↦ inr (record { imagedata = idl })
  ]

  -- GetImageData
  unfoldable get_image_data : ImageData Fetcher → String → E ⊎ Data
  get_image_data cp image = elim (fetch_image_data cp.imagedata image) [
    | inl e ↦ inl e
    | inr fetched ↦ get_value (image_fields fetched)
  ]
