-- ===== src/Ctl/Manifest/Output.antt =====
-- The whole of `manifestRun` of kubeforkctl/cmd/manifest.go: the client of
-- kubeforkctl/k8sClientGo/k8sClientGo.go, and `OutputManifest` of kubeforkctl/domain/fork.go.
use kubefork_controller.Base.{String, ◌<>◌, Bool, not, ◌&&◌, string_eq, ◌==◌, if◌then◌else◌}
use kubefork_controller.Base.GoMap.{GoMap}
use kubefork_controller.Base.Result
use kubefork_controller.Base.Result.{Result, ok, err}
use kubefork_controller.Base.Exec.{Exec, read, lift, ◌>>=◌}
use kubefork_controller.Api.{Fork, Time}
use kubefork_controller.Ctl.Manifest.{Cluster, ManifestOption, manifest_run}

-- What is called of Go's `os` and `fmt`, of the YAML package and of client-go. `Println` is called
-- for what it prints: its error is not looked at.
pub record Host (H Config : Type 0) : Type 0 where
  pub user_home_dir : H → Result String
  pub build_config_from_flags : String → H → Result Config
  pub new_for_config : Config → H → Result Cluster
  pub marshal : Fork → Result String
  pub print_line : String → H → H
  pub write_file : String → String → Exec H (Unit {0})

module _ {H Config : Type 0} (host : Host H Config) where
  unfoldable pub config_path : String → Bool → H → Result String
  config_path path changed h =
      if not changed && path == ""
      then Result.◌>>=◌ (host.user_home_dir h) (λ home. ok (home <> "/.kube/config"))
      else ok path

  -- `NewClientSet`
  unfoldable pub new_client_set : String → Bool → H → Result Cluster
  unfolding config_path
  new_client_set path changed h = Result.◌>>=◌ (config_path path changed h) λ kube_config.
      Result.◌>>=◌ (host.build_config_from_flags kube_config h)
        λ config. host.new_for_config config h

  -- `OutputManifest`
  unfoldable pub output_manifest : Fork → String → Exec H (Unit {0})
  output_manifest fork path = do
    y ← lift (host.marshal fork)
    if path == "" then (λ h. (ok tt, host.print_line y h)) else host.write_file path y

  module _ (range : (V : Type 0) → GoMap String V → GoMap String V) where
    -- `manifestRun`
    unfoldable pub run_manifest : ManifestOption → Time → Exec H (Unit {0})
    run_manifest opt now = do
      cluster ← read (new_client_set opt.kube_config_path opt.kube_config_changed)
      fork ← lift (manifest_run cluster range opt now)
      output_manifest fork opt.output_path
