-- ===== src/DeepCopies/Slots.antt =====
-- Where the values of each type lie in memory.
use kubefork_controller.Base.{String, refl, none, some, List}
use kubefork_controller.Base.GoMap.{GoMap}
use kubefork_controller.Api.{Int32, Upstream, VsConfigSpec}
use kubefork_controller.DeepCopies.Structs.{
  GatewayOptions, PodSpec, PodTemplateSpec, ForkService, ForkDeployment, ForkSpec, ForkManagerSpec,
  ForkStatus, ForkManagerStatus, VsConfigStatus,
}
use kubefork_controller.DeepCopies.Memory.{
  Address, Foreign, StoredFork, StoredForkManager, StoredVsConfig, StoredForkList,
  StoredForkManagerList, StoredVsConfigList, Slot, time, object_meta, label_selector, int32,
  string_map, strings, containers, upstreams, upstream, gateway_options, pod_spec,
  pod_template_spec, fork_service, fork_deployment, fork_spec, fork_status, fork, forks, fork_list,
  fork_manager_spec, fork_manager_status, fork_manager, fork_managers, fork_manager_list,
  vs_config_spec, vs_config_status, vs_config, vs_configs, vs_config_list,
}

module _ {F : Foreign} where
  abbrev pub time_slot : Slot F (F.Time)
  time_slot = record {
    put = time;
    get = λ c. elim c [ time x ↦ some x | _ ↦ none ];
    get-put = λ x. refl;
  }

  abbrev pub object_meta_slot : Slot F (F.ObjectMeta)
  object_meta_slot = record {
    put = object_meta;
    get = λ c. elim c [ object_meta x ↦ some x | _ ↦ none ];
    get-put = λ x. refl;
  }

  abbrev pub label_selector_slot : Slot F (F.LabelSelector)
  label_selector_slot = record {
    put = label_selector;
    get = λ c. elim c [ label_selector x ↦ some x | _ ↦ none ];
    get-put = λ x. refl;
  }

  abbrev pub int32_slot : Slot F (Int32)
  int32_slot = record {
    put = int32;
    get = λ c. elim c [ int32 x ↦ some x | _ ↦ none ];
    get-put = λ x. refl;
  }

  abbrev pub string_map_slot : Slot F (GoMap String String)
  string_map_slot = record {
    put = string_map;
    get = λ c. elim c [ string_map x ↦ some x | _ ↦ none ];
    get-put = λ x. refl;
  }

  abbrev pub strings_slot : Slot F (List String)
  strings_slot = record {
    put = strings;
    get = λ c. elim c [ strings x ↦ some x | _ ↦ none ];
    get-put = λ x. refl;
  }

  abbrev pub containers_slot : Slot F (List F.Container)
  containers_slot = record {
    put = containers;
    get = λ c. elim c [ containers x ↦ some x | _ ↦ none ];
    get-put = λ x. refl;
  }

  abbrev pub upstreams_slot : Slot F (List Upstream)
  upstreams_slot = record {
    put = upstreams;
    get = λ c. elim c [ upstreams x ↦ some x | _ ↦ none ];
    get-put = λ x. refl;
  }

  abbrev pub upstream_slot : Slot F (Upstream)
  upstream_slot = record {
    put = upstream;
    get = λ c. elim c [ upstream x ↦ some x | _ ↦ none ];
    get-put = λ x. refl;
  }

  abbrev pub gateway_options_slot : Slot F (GatewayOptions Address Address)
  gateway_options_slot = record {
    put = gateway_options;
    get = λ c. elim c [ gateway_options x ↦ some x | _ ↦ none ];
    get-put = λ x. refl;
  }

  abbrev pub pod_spec_slot : Slot F (PodSpec Address)
  pod_spec_slot = record {
    put = pod_spec;
    get = λ c. elim c [ pod_spec x ↦ some x | _ ↦ none ];
    get-put = λ x. refl;
  }

  abbrev pub pod_template_spec_slot : Slot F (PodTemplateSpec Address Address)
  pod_template_spec_slot = record {
    put = pod_template_spec;
    get = λ c. elim c [ pod_template_spec x ↦ some x | _ ↦ none ];
    get-put = λ x. refl;
  }

  abbrev pub fork_service_slot : Slot F (ForkService Address)
  fork_service_slot = record {
    put = fork_service;
    get = λ c. elim c [ fork_service x ↦ some x | _ ↦ none ];
    get-put = λ x. refl;
  }

  abbrev pub fork_deployment_slot : Slot F (ForkDeployment Address Address Address)
  fork_deployment_slot = record {
    put = fork_deployment;
    get = λ c. elim c [ fork_deployment x ↦ some x | _ ↦ none ];
    get-put = λ x. refl;
  }

  abbrev pub fork_spec_slot : Slot F (ForkSpec Address Address Address Address)
  fork_spec_slot = record {
    put = fork_spec;
    get = λ c. elim c [ fork_spec x ↦ some x | _ ↦ none ];
    get-put = λ x. refl;
  }

  abbrev pub fork_status_slot : Slot F (ForkStatus)
  fork_status_slot = record {
    put = fork_status;
    get = λ c. elim c [ fork_status x ↦ some x | _ ↦ none ];
    get-put = λ x. refl;
  }

  abbrev pub fork_slot : Slot F (StoredFork F)
  fork_slot = record {
    put = fork;
    get = λ c. elim c [ fork x ↦ some x | _ ↦ none ];
    get-put = λ x. refl;
  }

  abbrev pub forks_slot : Slot F (List (StoredFork F))
  forks_slot = record {
    put = forks;
    get = λ c. elim c [ forks x ↦ some x | _ ↦ none ];
    get-put = λ x. refl;
  }

  abbrev pub fork_list_slot : Slot F (StoredForkList F)
  fork_list_slot = record {
    put = fork_list;
    get = λ c. elim c [ fork_list x ↦ some x | _ ↦ none ];
    get-put = λ x. refl;
  }

  abbrev pub fork_manager_spec_slot : Slot F (ForkManagerSpec Address)
  fork_manager_spec_slot = record {
    put = fork_manager_spec;
    get = λ c. elim c [ fork_manager_spec x ↦ some x | _ ↦ none ];
    get-put = λ x. refl;
  }

  abbrev pub fork_manager_status_slot : Slot F (ForkManagerStatus)
  fork_manager_status_slot = record {
    put = fork_manager_status;
    get = λ c. elim c [ fork_manager_status x ↦ some x | _ ↦ none ];
    get-put = λ x. refl;
  }

  abbrev pub fork_manager_slot : Slot F (StoredForkManager F)
  fork_manager_slot = record {
    put = fork_manager;
    get = λ c. elim c [ fork_manager x ↦ some x | _ ↦ none ];
    get-put = λ x. refl;
  }

  abbrev pub fork_managers_slot : Slot F (List (StoredForkManager F))
  fork_managers_slot = record {
    put = fork_managers;
    get = λ c. elim c [ fork_managers x ↦ some x | _ ↦ none ];
    get-put = λ x. refl;
  }

  abbrev pub fork_manager_list_slot : Slot F (StoredForkManagerList F)
  fork_manager_list_slot = record {
    put = fork_manager_list;
    get = λ c. elim c [ fork_manager_list x ↦ some x | _ ↦ none ];
    get-put = λ x. refl;
  }

  abbrev pub vs_config_spec_slot : Slot F (VsConfigSpec)
  vs_config_spec_slot = record {
    put = vs_config_spec;
    get = λ c. elim c [ vs_config_spec x ↦ some x | _ ↦ none ];
    get-put = λ x. refl;
  }

  abbrev pub vs_config_status_slot : Slot F (VsConfigStatus)
  vs_config_status_slot = record {
    put = vs_config_status;
    get = λ c. elim c [ vs_config_status x ↦ some x | _ ↦ none ];
    get-put = λ x. refl;
  }

  abbrev pub vs_config_slot : Slot F (StoredVsConfig F)
  vs_config_slot = record {
    put = vs_config;
    get = λ c. elim c [ vs_config x ↦ some x | _ ↦ none ];
    get-put = λ x. refl;
  }

  abbrev pub vs_configs_slot : Slot F (List (StoredVsConfig F))
  vs_configs_slot = record {
    put = vs_configs;
    get = λ c. elim c [ vs_configs x ↦ some x | _ ↦ none ];
    get-put = λ x. refl;
  }

  abbrev pub vs_config_list_slot : Slot F (StoredVsConfigList F)
  vs_config_list_slot = record {
    put = vs_config_list;
    get = λ c. elim c [ vs_config_list x ↦ some x | _ ↦ none ];
    get-put = λ x. refl;
  }
