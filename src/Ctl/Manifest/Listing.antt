-- ===== src/Ctl/Manifest/Listing.antt =====
-- Which containers kubeforkctl/k8sClientGo/k8sClientGo.go lists.
use kubefork_controller.Base.{
  String, nat_eq, Bool, false, ◌&&◌, List, [], ◌∷◌, any, string_eq, ◌==◌, if◌then◌else◌,
}
use Prim.Native.Char.{code}
use Prim.Native.String.{[], ◌∷◌}
use kubefork_controller.Base.GoMap.{GoMap}
use kubefork_controller.Base.Result.{Result, ok}
use kubefork_controller.Api.{LabelSelector, Container, Deployment, Service}
use kubefork_controller.Ctl.{merge}
use kubefork_controller.Ctl.Manifest.{Cluster}

-- The text before the first colon, or all of it. That cuts off the tag, but it cuts at the port of a
-- registry as well.
abbrev pub before_colon : String → String
before_colon [] = []
before_colon (c ∷ s) = if code c == b':' then [] else c ∷ before_colon s

-- The container has the name, and its image and the given one are the same before their first colons.
abbrev pub is_switched : String → String → Container → Bool
is_switched image n c = n == c.name && before_colon c.image == before_colon image

abbrev pub has_switched : String → String → Deployment → Bool
has_switched image n d = any (is_switched image n) d.template.containers

abbrev holds_switched : String → String → Result (List Deployment) → Bool
holds_switched image n (ok ds) = any (has_switched image n) ds
holds_switched image n _ = false

module _ (cluster : Cluster) (namespace image : String) (selector : LabelSelector)
    (n : String) where
  -- A Deployment that is listed for the Service, with the labels of both selectors, has such a container.
  abbrev pub is_reached : Service → Bool
  is_reached s = holds_switched image n (
      cluster.list_deployments namespace
        (record selector { match_labels = merge s.spec.selector selector.match_labels }))
