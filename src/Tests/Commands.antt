-- ===== src/Tests/Commands.antt =====
-- The command kubeforkctl.
use kubefork_controller.Base.{
  String, ◌≡◌, refl, ◌+◌, ◌*◌, true, ltb, none, some, List, [], ◌∷◌, map, string_eq, nat_eq, All,
  arith,
}
use kubefork_controller.Base.GoMap.{GoMap}
use kubefork_controller.Base.Text.{split, split_two}
use kubefork_controller.Base.Result.{ok, err, nil_map_write, failure}
use kubefork_controller.Base.Exec.{◌>>=◌}
use kubefork_controller.Controllers.{is_expired}
use kubefork_controller.Ctl.{new_selector, add_label}
use kubefork_controller.Ctl.Labels.{
  Label, equals, differs, present, missing, print, IsPlainLabel, labels_of, expressions_of,
  new_selector-print,
}
use kubefork_controller.Ctl.Manifest.{
  ManifestOption, default_option, new_fork, add_duration, valid_duration,
}
use kubefork_controller.Ctl.Manifest.Lifetime.{whole_seconds, is_expired-new_fork}
use kubefork_controller.Tests.Samples.{selector, sample_service, same_order}
use kubefork_controller.Tests.Blank.{named_in}
use kubefork_controller.Ctl.Manifest.{Cluster, manifest_run, get_all_containers, collect_services}
use kubefork_controller.Ctl.Manifest.Output.{Host, run_manifest, new_client_set, output_manifest}
use kubefork_controller.Api.{Container, Fork, Time}
use kubefork_controller.Base.{Option, none, some, ap}

abbrev options : List Label
options = equals "app" "web" ∷ differs "tier" "db" ∷ present "team" ∷ missing "canary" ∷ []

abbrev from_name : GoMap String String
from_name = ("app", "api") ∷ []

plain : All IsPlainLabel options
plain = ground arith

new_selector-print_example :
    new_selector (map print options) (some from_name)
    ≡ ok (record {
      match_labels = labels_of options from_name;
      match_expressions = expressions_of options;
    })
new_selector-print_example = new_selector-print options from_name plain

-- A Service without labels, and an option that sets one.
nil_labels : new_selector ("app=web" ∷ []) none ≡ err nil_map_write
unfolding new_selector add_label split split_two nat_eq
nil_labels = refl

-- What stands before the sign is lost.
key_dropped :
    new_selector ("app!web" ∷ []) (some [])
    ≡ ok (record {
      match_labels = [];
      match_expressions = record { key = "web"; operator = "DoesNotExist"; values = [] } ∷ [];
    })
unfolding new_selector add_label split split_two nat_eq
key_dropped = refl

abbrev eight_hours : ManifestOption
eight_hours = record (default_option "") {
  identifier = "id";
  namespace = "ns";
  image = "web:1";
  fork_manager_name = "ns/manager";
}

-- A manifest that is applied as it is, but for the fractions of a second.
abbrev rounded : Option Time → Option Time
rounded none = none
rounded (some t) = some (whole_seconds t)

abbrev applied : Fork → Fork
applied f = record f { spec = record (f.spec) { deadline = rounded f.spec.deadline } }

is_expired-new_fork_example :
    is_expired 28800000000006 (applied (new_fork eight_hours 5 selector selector []))
    ≡ ltb (whole_seconds (5 + 8 * 3600000000000)) 28800000000006
is_expired-new_fork_example =
    is_expired-new_fork eight_hours 5 28800000000006 selector selector [] applied (omega arith)
      (λ f t e. ap rounded e)

-- One hour more than an `int64` holds lies in the past.
overflow :
    ltb (add_duration 10000000000000000000 (valid_duration 2562048)) 10000000000000000000 ≡ true
unfolding add_duration valid_duration
overflow = refl

abbrev server : Container
server = record { name = "server"; image = "web:2"; env = [] }

abbrev cluster : Cluster
cluster = record {
  get_service = λ ns name. ok (record { labels = some [] });
  get_deployment = λ ns name. ok (record { labels = some [] });
  list_services = λ ns s. ok (sample_service ∷ []);
  list_deployments = λ ns s. ok (
      record {
        metadata = named_in "ns" "web-server";
        template = record { labels = []; containers = server ∷ [] };
      }
      ∷ []);
}

abbrev listed_containers : GoMap String Container
listed_containers = ("server", server) ∷ []

abbrev no_containers : GoMap String Container
no_containers = []

-- A host that remembers the lines that were printed, and has no files.
abbrev host : Host (List String) (Unit {0})
host = record {
  user_home_dir = λ h. ok "/root";
  build_config_from_flags = λ path h. ok tt;
  new_for_config = λ config h. ok cluster;
  marshal = λ f. ok f.metadata.name;
  print_line = λ y h. y ∷ h;
  write_file = λ path y h. (err (failure "no such directory"), h);
}

printed : run_manifest host same_order eight_hours 5 [] ≡ (ok tt, "kubefork-id" ∷ [])
unfolding run_manifest ◌>>=◌ new_client_set string_eq manifest_run new_selector get_all_containers
    collect_services output_manifest new_fork
printed = refl
