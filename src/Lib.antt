-- ===== src/Lib.antt =====
-- The cloud-network-config-controller assigns the addresses of CloudPrivateIPConfig resources to
-- nodes in the cloud that a cluster runs on. A work queue feeds the keys of changed resources to a
-- controller; the controller reads the resource from the API server, decides whether to assign,
-- release or move the address, calls the cloud provider, and writes what it did to the status.
--
-- - Base: shared notation, tests on strings and numbers, lists, Go's `int` and package `strings`.
-- - Effect: Go's errors, nil dereferences and calls that change a world outside the program; its
--   children hold the proof rules for such calls, for what they keep however they end, and for
--   `retry.RetryOnConflict`.
-- - Cloud (pkg/cloudprovider/cloudprovider.go): the interface of a provider and its data. The
--   functions of the package `net` are the parameter `Net`. Ledger says abstractly what a provider
--   promises.
-- - Config (pkg/controller/cloudprivateipconfig/cloudprivateipconfig_controller.go): Object is the
--   resource, Op is `computeOp` and `cloudPrivateIPConfigNameToIP`, Client is the calls of the API
--   server, Sync is `SyncHandler`, Events is the update filter. Safety proves what holds whatever
--   the API server and the cloud answer, Progress what follows when they answer.
-- - Queue (pkg/controller/controller.go): `Enqueue` and `processNextWorkItem`. Retries counts the
--   attempts on a failing key, Enqueued says what is added, and Worker is `runWorker`, on fuel, of
--   which one turn for each item left and one more are enough after the shutdown.
-- - Node (pkg/controller/node/node_controller.go): the annotation of a node with its configuration.
-- - Aws (pkg/cloudprovider/aws.go): assignment and release; ProviderId reads the id of an instance,
--   Egress is the configuration of a node, Waiting and Changes prove what a success means, Agreement
--   what the errors mean, Provider is the whole as an instance of the interface.
-- - Gcp (pkg/cloudprovider/gcp.go): assignment and release; Urls reads provider ids and subnet URLs,
--   Aliases is the loops over the aliases, Egress the configuration, Provider the instance of the
--   interface, and Ledger is about Cloud/Ledger.antt, over the compute API of Store, where a wait that
--   returns without an error has waited for the operation to be finished.
-- - OpenStack (pkg/cloudprovider/openstack.go): the data and the lists of Neutron; Ids is the device
--   ids, Pairs the updates of allowed address pairs, Reservation the unbound ports, Assign, Release,
--   Move and Egress the operations of the interface, Provider the whole as an instance of it. Store
--   says what is assumed of Neutron; Quiet, Cleared, Placed, Released, Held, Kept and Moved
--   are about what a success means; Others, Untouched, Outside and Ledger about what is left alone and
--   about Cloud/Ledger.antt; Limits, Usage, Tries and Undone about bounds and lists of pairs.
-- - Azure (pkg/cloudprovider/azure.go): the data and the list of configurations; Interfaces is the
--   machine and its interfaces, Changes the assignment and the release, Egress the configuration,
--   Provider the instance of the interface. Order, Names and Released hold the proofs.
-- - Files, and Credentials in Aws, Gcp, Azure and OpenStack: `initCredentials` of the providers. The
--   libraries that make the clients are parameters. Azure/Credentials/Clients and
--   OpenStack/Credentials/Bundle are about what a success of it means, by Effect/Success.
-- - Client (pkg/cloudprovider/cloudprovider.go): the choice of the provider for a platform.
-- - Settings (cmd/cloud-network-config-controller/main.go): the flags, and the controllers that a
--   leader starts.
-- - Process (cmd/cloud-network-config-controller/main.go, pkg/signals/signals.go, and `Run` of
--   pkg/controller/controller.go): the goroutines of the program as a step relation. Invariant,
--   Ending and Signals are about every state that it comes to, Drain and Scenarios about states that
--   it may come to.
-- - Rotation (pkg/controller/secret/secret_controller.go and, with the same code for another
--   resource, pkg/controller/configmap/configmap_controller.go): the filters and the shutdown.
-- - Fake (pkg/cloudprovider/cloudprovider_fake.go): the provider of the repository's tests.
-- - Informer and Wiring (pkg/controller/controller.go and the constructors of the four controllers):
--   the handlers of events, over `cache.FilteringResourceEventHandler` as a parameter; Wiring/Events
--   is about a rotation, Wiring/Missed about a deletion and Wiring/Requeued about the objects that
--   come back.
-- - Tests: concrete services, and the theorems at concrete inputs.
--
-- The API server and the cloud are parameters over a type of worlds: `Kube` and `CloudProvider`.
-- What the proofs assume of them is stated in Config/Safety/Cluster.antt and
-- Config/Progress/Services.antt, and Tests/GcpCluster.antt shows that the provider of
-- GCP, over a simulated compute API and API server, meets it; Tests/SimCluster.antt and
-- Tests/SimServices.antt do so for a simulated cloud, which may move addresses as well;
-- Tests/SimNeutron.antt is a Neutron that meets OpenStack/Store.antt. The retries of a call that conflicts are any finite number of repetitions, so
-- that no fuel is needed. `wait.PollImmediate`, `url.Parse`, `uuid.Parse`, the work queue,
-- and the APIs of EC2, GCP, Azure and Neutron are parameters too. A failed assignment on OpenStack
-- gives its reservation back in a loop of ten attempts, as the source does.
--
-- Process takes the documented behaviour of other code into its steps: `signal.Notify` drops a signal
-- that finds no room in its channel, `leaderelection.RunOrDie` calls `OnStoppedLeading` whenever it
-- ends, and releases the lease when the context is cancelled, and `ShutDownWithDrain` waits for the
-- items that are being processed. A controller that panics is not among the steps.
--
-- Not modelled: logging, contexts and deadlines of single calls, what the
-- Kubernetes clients are made of, `getNovaServer` of OpenStack, which nothing calls, and the
-- vendored libraries, which appear as parameters only.
pub mod Base
pub mod Effect
pub mod Cloud
pub mod Config
pub mod OpenStack
pub mod Azure
pub mod Informer
pub mod Wiring
pub mod Fake
pub mod Files
pub mod Client
pub mod Settings
pub mod Process
mod Tests
pub mod Queue
pub mod Aws
pub mod Node
pub mod Gcp
pub mod Rotation
