-- ===== src/Lib.antt =====
-- kubefork-controller: a controller that makes virtual clusters inside one Kubernetes cluster, and the
-- command kubeforkctl that writes its manifests.
--
-- A Fork names a ForkManager, an identifier, and selectors of Services and Deployments. A
-- reconciliation of a Fork writes the Ambassador Mappings of its manager, and copies of the selected
-- Services and Deployments with one VSConfig for each Service. A reconciliation of a VSConfig writes the
-- Istio VirtualService of the Service it is about, which sends the requests that carry the
-- identifier of a Fork to the copies. A watcher announces the Forks whose deadline has come, and a
-- reconciliation after its deadline deletes a Fork.
--
-- What stands where, with the files of the repository:
--   Base             lists, maps, strings, results, and calls that read and write the cluster
--   Api              api/v1beta1, and the fields of foreign resources that the program touches
--   Kube             the calls of client-go, controller-runtime and apimachinery, as a record of
--                    parameters; Kube.Laws states what their documentation promises
--   Refresh          pkg/refresh/refresh.go: Refresh, handleExisting, ownedByParent; Refresh.Naming is
--                    createResourceName
--   Slug             the field manager of a Fork, as builder.go and fork_controller.go read it
--   Application      domain/lister/internal: application.go, with deployment.go, service.go and
--                    builder.go in Application.Deployments, Application.Services and Application.Builder
--   VirtualServices  domain/lister/virtualservice.go
--   Mappings         domain/updater/mapping.go
--   Updaters         domain/updater/microservice.go and virtualservice.go
--   Controllers      controllers: the three reconcilers and one tick of the watcher, with its loop and the
--                    sends on its channel in Controllers.Watching, and pkg/middleware/honeybadger.go in
--                    Controllers.Reporting
--   Forks            which calls leave the objects of a kind alone, and with it what all of this does to
--                    the Forks on the server: the calls of each part, runs of
--                    the controllers as a step relation (Forks.Steps), and the way from a tick of the
--                    watcher to the deletion (Forks.Announced)
--   Scheme           the registration of types: api/v1beta1/groupversion_info.go, the init functions of
--                    api/v1beta1 and that of main.go
--   Manager          main.go, with SetupWithManager and SetupForkWatcher of controllers
--   Ctl              kubeforkctl: NewSelector, NewContainers, NewEnv, Merge; Ctl.Manifest has NewFork
--                    and the client's listing of containers, Ctl.Manifest.Output the whole of
--                    manifestRun with NewClientSet and OutputManifest
--   DeepCopies       api/v1beta1/zz_generated.deepcopy.go over a memory with addresses: the types in
--                    DeepCopies.Structs, the blocks for pointers, slices and maps in
--                    DeepCopies.Copying, the functions in DeepCopies.Specs and DeepCopies.Kinds, and
--                    what is read at an address in DeepCopies.Content
--   Tests            runs at concrete data
-- The child modules of a part that are not named here hold its theorems, and are named for what they
-- are about.
--
-- How code becomes definitions. A function that reads and writes the cluster is of the type Exec W A:
-- from a world to a result and the world after it, so that what was written before an error stays
-- written. W and the calls on it are parameters. A read leaves the world alone, and a run of an updater
-- is not interleaved with other writers. A struct is a record, a pointer that may be nil is an Option,
-- a map is a list of entries with distinct keys; where the code tells a nil map from an empty one
-- (labels in NewSelector) the map is an Option. The order in which Go's range meets the entries of a
-- map is a parameter of the functions whose result may depend on it. A panic is an error of its own
-- (nil_dereference, nil_map_write). The loops run over lists, so that no fuel is
-- needed; that of the watcher runs over the signals that arrive. The variable of its inner loop, whose
-- address it sends, is the list of the Forks that it holds from the send on. The work queue of a
-- controller is not code of the repository: a run serves any requests in any order. Floating-point
-- operations are parameters with the accuracy that the theorems on name lengths state; int32 fields
-- are copied only; durations of kubeforkctl wrap at 2 ^ 64. Strings are ASCII, as the names of
-- Kubernetes objects are, so that a character is a byte. Errors carry no text and no stack.
--
-- Not modelled: how a command line is parsed, which is the libraries' (a parameter of Manager for the
-- controller, and left out for kubeforkctl but for the defaults in Ctl.Manifest), the logging, and the status fields (which nothing
-- reads).
pub mod Base
pub mod Api
pub mod Kube
pub mod Refresh
pub mod Slug
pub mod Application
pub mod VirtualServices
pub mod Forks
pub mod Mappings
pub mod Updaters
pub mod Controllers
pub mod Scheme
pub mod Manager
pub mod Ctl
pub mod DeepCopies
pub mod Tests
