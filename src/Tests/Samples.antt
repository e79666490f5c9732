-- ===== src/Tests/Samples.antt =====
-- A Fork of one Service and one Deployment, and a cluster that holds them.
use kubefork_controller.Base.{String, Option, none, some, [], ◌∷◌, string_eq, ◌==◌, if◌then◌else◌}
use kubefork_controller.Base.GoMap.{GoMap}
use kubefork_controller.Base.Result.{ok, err, not_found}
use kubefork_controller.Api.{
  Fork, ForkManager, Service, Deployment, Mapping, LabelSelector, GatewayOptions,
}
use kubefork_controller.Kube.{Kube}
use kubefork_controller.Mappings.{blank_mapping}
use kubefork_controller.Tests.Blank.{no_type, named_in, blank}

abbrev pub selector : LabelSelector
selector = record { match_labels = []; match_expressions = [] }

abbrev pub gateway : GatewayOptions
gateway = record { add_request_headers = ("x-team", "a") ∷ []; allow_upgrade = "h2c" ∷ [] }

abbrev pub sample_fork : Fork
sample_fork = record {
  type_meta = no_type;
  metadata = named_in "ns" "alice";
  spec = record {
    manager = "ns/manager";
    identifier = "id";
    deadline = some 5;
    gateway_options = some gateway;
    services = some (record { selector = some selector });
    deployments = some (record { selector = some selector; template = none; replicas = none });
  };
}

abbrev pub sample_manager : ForkManager
sample_manager = record {
  type_meta = no_type;
  metadata = named_in "ns" "manager";
  spec = record {
    ambassador_id = "ambassador";
    header_key = "x-fork";
    upstreams = record { host = "example.com"; original = "web:80"; host_rewrite = "" } ∷ [];
  };
}

abbrev pub sample_service : Service
sample_service = record {
  type_meta = no_type;
  metadata = named_in "ns" "web";
  spec = record {
    cluster_ip = "10.0.0.1";
    service_type = "ClusterIP";
    ports = [];
    selector = ("app", "web") ∷ [];
  };
}

abbrev pub sample_deployment : Deployment
sample_deployment = record {
  metadata = named_in "ns" "web-server";
  template = record { labels = ("app", "web") ∷ []; containers = [] };
}

abbrev pub same_order : (V : Type 0) → GoMap String V → GoMap String V
same_order V m = m

abbrev pub old_mapping : Mapping
old_mapping = blank_mapping "ns" "example-com-gone"

-- The world is whether the old Mapping is there: a deletion of it succeeds, and so does every write.
abbrev pub sample_kube : Kube (Option Mapping)
sample_kube = record (blank (Option Mapping)) {
  get_fork = λ k w. if k.name == "alice" then ok sample_fork else err not_found;
  get_fork_manager = λ k w. ok sample_manager;
  get_service = λ k w. ok sample_service;
  list_forks = λ o w. ok (sample_fork ∷ []);
  list_services = λ o w. elim o.label_selector [ [] ↦ ok (sample_service ∷ []) | _ ∷ _ ↦ ok [] ];
  list_deployments = λ o w. ok (sample_deployment ∷ []);
  list_mappings = λ o w. elim w [ none ↦ ok [] | some m ↦ ok (m ∷ []) ];
  delete = λ o w. (ok tt, none);
  create_or_update = λ o f w. (ok tt, w);
}
