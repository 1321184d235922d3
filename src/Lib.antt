-- ===== src/Lib.antt =====
-- Karpenter provider for Tencent Kubernetes Engine: a model of its own logic, with proofs.
--
-- The program extends Karpenter. A cloud provider lists the instance types that the cloud sells,
-- with their capacity, and creates machines for NodeClaims; controllers watch machines and
-- NodeClaims, delete what failed or has no owner, and carry provider IDs from machines to NodeClaims.
--
-- The files, with the code that they model:
--   Zone             pkg/providers/zone/zone.go: ZoneFromID and IDFromZone.
--   InstanceType     pkg/providers/instancetype: Kdump and Level are kdump.go and level.go, Capacity,
--                    Overhead and New are types.go, Blacklist, Offerings, Query and Listing are
--                    instancetype.go.
--   Machines         pkg/providers/machine/machine.go: Get, List and Delete; Selection is the choice of an
--                    instance type in Create, Annotations the resources that Create writes on a machine
--                    and pkg/cloudprovider/cloudprovider.go reads back, Creation the rest of Create.
--   NativeNode       staging/nativenode/v1beta1: the records of a provider spec (cxmprovider_types.go),
--                    and of defaults.go the removal of duplicates (Duplicates), the defaults of a
--                    provider spec, of machines and of machine sets (Defaults) and those of a rolling
--                    upgrade (Upgrades, with rollingupgrade_types.go); the functions of util.go are in
--                    Defaults/Machines and Defaults/Prepaid.
--   CloudProvider    pkg/cloudprovider/cloudprovider.go: Conversion makes a NodeClaim of a machine, Launch has
--                    Create, Get, List and the others over interfaces of the providers, Collection puts
--                    the garbage collector on top.
--   Failure          pkg/controllers/nodeclaim/failure/controller.go.
--   GarbageCollection  pkg/controllers/nodeclaim/garbagecollection/controller.go.
--   ProviderId       pkg/controllers/nodeclaim/providerid; Cluster puts its controllers on a cluster of
--                    one NodeClaim and one machine, whose server may refuse writes or lose answers.
--   NodeClass        pkg/controllers/nodeclass: the status reconcilers and the termination controller;
--                    Status is the controller around the reconcilers, Cluster puts both controllers on a
--                    node class in the API server.
--   Network          pkg/providers/vpc and pkg/providers/sshkey: the requests for subnets, security groups
--                    and key pairs, and the union of the answers.
--   Options          pkg/operator/options, pkg/util/util.go and the event of the termination controller.
--   Labels           pkg/apis/v1beta1/labels.go: the names of labels and annotations.
--   Kube             the Kubernetes objects, and the API server as a parameter.
--   Scheduling       what is used of Karpenter's scheduling package, as a parameter.
--   Strconv          what is used of Go's strings and strconv.
--   Prelude          numbers, lists, results and maps for the others.
--   Examples         concrete values for the parameters, and the theorems applied to them.
--
-- Functions keep the names of the code in lower case with underscores: ZoneFromID is zone_from_id. A
-- Go map is an association list; int64 and int32 arithmetic keeps its wrap-around (wrap64, wrap32);
-- an error is a value of Result, by the kind that the code tests for. The answers of the API server
-- are functions of the writes made so far, and a controller returns the history of its writes. The
-- caches of the instance type provider are parameters with the law that an entry is found until it has
-- expired; float64, quantities and the decoding of provider specs are parameters too.
--
-- The decimal printer of Strconv recurses on fuel: the number itself, which is more than its digits.
-- The loop over batches of subnet IDs (Network) recurses on the number of IDs, and a round takes five.
-- The loop of removeDuplicate runs for the length that the slice has at its start. Every other function
-- is structural.
--
-- Not modelled: the reading of the wall clock more than once in a run, the interleaving of the
-- parallel workers of a controller, stale reads in the two Clusters, logs, metrics, and the wiring at
-- start-up; generated code (deep copies, conversions, documentation).
pub mod CloudProvider
pub mod Examples
pub mod Failure
pub mod GarbageCollection
pub mod InstanceType
pub mod Kube
pub mod Labels
pub mod Machines
pub mod NativeNode
pub mod Network
pub mod NodeClass
pub mod Options
pub mod Prelude
pub mod ProviderId
pub mod Scheduling
pub mod Strconv
pub mod Zone
