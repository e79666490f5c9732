-- ===== src/Application/Services.antt =====
-- domain/lister/internal/service.go
use kubefork_controller.Base.{String, ◌<>◌, none, some, [], ◌∷◌, map, string_eq}
use kubefork_controller.Base.GoMap.{GoMap, lookup}
use kubefork_controller.Api.{TypeMeta, ObjectMeta, Fork, VsConfig, Service, ServicePort}

abbrev pub fork_identifer_label_key : String
fork_identifer_label_key = "fork.k8s.wantedly.com/identifier"

abbrev pub routing_label_key_prefix : String
routing_label_key_prefix = "fork.k8s.wantedly.com/routed-from"

unfoldable pub get_label_key_for_routing_label : String → String
get_label_key_for_routing_label original_service_name =
    routing_label_key_prefix <> "-" <> original_service_name

-- The metadata and the type of an object that the program makes: the fields that it sets.
abbrev pub new_meta : String → String → ObjectMeta
new_meta namespace name = record {
  name = name;
  namespace = namespace;
  labels = [];
  annotations = [];
  owner_references = [];
  resource_version = "";
  uid = "";
}

abbrev pub untyped : TypeMeta
untyped = record { kind = ""; api_version = "" }

unfoldable pub service_name : Service → Fork → String
service_name s fork = s.metadata.name <> "-" <> fork.metadata.name

-- A node port is immutable, and is not copied.
unfoldable pub copy_port : ServicePort → ServicePort
copy_port port = record port { node_port = 0 }

unfoldable pub build_copy : Service → Fork → GoMap String Service → Service
build_copy s fork existing_service = record {
  type_meta = untyped;
  metadata = new_meta fork.metadata.namespace (service_name s fork);
  spec = record {
    cluster_ip = elim (lookup (service_name s fork) existing_service) [
      | none ↦ ""
      | some existing ↦ existing.spec.cluster_ip
    ];
    service_type = "ClusterIP";
    ports = map copy_port s.spec.ports;
    selector =
        (get_label_key_for_routing_label s.metadata.name, "true")
        ∷ (fork_identifer_label_key, fork.spec.identifier)
        ∷ [];
  };
}

unfoldable pub build_vs_config : Service → Fork → String → VsConfig
build_vs_config s fork header_name = record {
  type_meta = untyped;
  metadata = new_meta fork.metadata.namespace (service_name s fork);
  spec = record {
    host = s.metadata.name;
    service = service_name s fork;
    header_name = header_name;
    header_value = fork.spec.identifier;
  };
}
