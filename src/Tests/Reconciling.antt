-- ===== src/Tests/Reconciling.antt =====
-- The field of a Fork that names its manager.
use kubefork_controller.Base.{◌<>◌, ◌≡◌, string_eq, nat_eq, ◌↔◌}
use kubefork_controller.Base.Text.{Lacks}
use kubefork_controller.Base.Result.{ok}
use kubefork_controller.Slug.{parse_manager, parse_manager_iff}

parse_manager_iff_example :
    (parse_manager "ns/manager" ≡ ok (record { namespace = "ns"; name = "manager" }))
    ↔ (("ns/manager" ≡ "ns" <> "/" <> "manager") × Lacks b'/' "ns" × Lacks b'/' "manager")
parse_manager_iff_example =
    parse_manager_iff "ns/manager" (record { namespace = "ns"; name = "manager" })
