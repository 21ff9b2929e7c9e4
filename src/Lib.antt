-- ===== src/Lib.antt =====
-- A model of the parts of istio-operator that decide which namespaces belong to a service mesh and
-- that install, watch and remove the control planes, with theorems about it.
--
-- A ServiceMeshMemberRoll lists the namespaces of a mesh; a ServiceMeshMember in a namespace refers to
-- the mesh's ServiceMeshControlPlane. The member roll controller creates and deletes members as the
-- roll says and sums up their status; the member controller configures a member's namespace, and
-- creates and deletes an otherwise unused roll. Both write through the API server, which answers them
-- from caches. Admission webhooks check rolls and members before they are stored. The control plane
-- controller renders the charts of a ServiceMeshControlPlane, applies them one after the other, waits
-- for each to become ready, prunes what an earlier generation left, and reports in the status.
--
-- - Prelude: names of the libraries, Boolean tests, and Go's maps and string sets as lists.
-- - Prog: code that calls the API server. A piece of code takes the calls made so far and returns its
--   result with the longer list; nothing is assumed of the answers. Prog/Emits has rules for what a
--   piece of code calls, Prog/Returns for what it returns, and Prog/Runs for both at once; those of
--   Prog/Known and Prog/Answered use what is known of the result of an earlier part.
-- - Errors: how the libraries build and classify errors, a parameter of everything else, and
--   pkg/controller/common/conflicts.go (IsConflict and the reconciler that handles conflicts),
--   which Conflict models. The others prove.
-- - Kube: the objects with the fields that the code reads or writes
--   (pkg/apis/maistra/v1/servicemeshmember_types.go, servicemeshmemberroll_types.go,
--   pkg/apis/maistra/v2/servicemeshcontrolplane_types.go), the calls, and the environment: the answers
--   of the API server, the clock, Go's printing, sorting and regular expressions, and settings.
-- - Status: pkg/apis/maistra/status/status.go (GetCondition, SetCondition, RemoveCondition, annotations).
-- - Common: pkg/controller/common/util.go, finalizers.go and metadata.go.
-- - Versions: pkg/controller/versions/versions.go (ParseVersion, Ver and its methods, init).
-- - Member: pkg/controller/servicemesh/member. Controller, Rolls and Status model controller.go;
--   Reconciler, Namespaces, RoleBindings, Attachments and Cleanup model namespace_reconciler.go; and
--   Networking models ovs_subnet.go, ovs_networkpolicy.go and ovs_multitenant.go. The others prove.
-- - Roll: pkg/controller/servicemesh/memberroll/controller.go. Controller has Reconcile, reconcileObject
--   and finalizeObject, Sync the steps of reconcileObject in a mesh, Members, Membership, Summary, Status
--   and Kiali what they use. The others prove.
-- - Webhooks: pkg/controller/servicemesh/webhooks/validation/memberroll.go and member.go, and
--   mutation/memberroll.go, in MemberRolls with Access, Members and Mutation; and validateUpdate of
--   validation/controlplane.go in Upgrades. The others prove.
-- - Mesh: pkg/controller/servicemesh/controlplane. Controller models controller.go; Reconciler with
--   Preparation, Installation, Conditions and Posting model reconciler.go, manifestprocessing.go and
--   status.go; Readiness models readiness.go, Pruning pruner.go, Deleter deleter.go, Namespaces
--   namespace_labels.go, and Labelling addMetadata of pkg/controller/common/helm/manifestprocessing.go.
--   Objects has the objects and Calls the calls. The others prove.
-- - Profiles: getSMCPProfile, recursivelyApplyProfiles and mergeValues of
--   pkg/controller/versions/template.go, in Values and Applying. Kept and Finished prove.
-- - Examples: a concrete type of errors and a concrete cluster, on which the theorems are applied.
--
-- Objects that the code changes in memory are passed on by hand. Loops are structural recursion, but
-- for IsConflict, which recurs on nested errors: its fuel is one more than the depth of the error,
-- which is enough because errors are nested only in deeper ones. Times are seconds and generations are
-- natural numbers. Generations are only compared; times are compared, two seconds are added to the time
-- at which a pause begins, and the time is subtracted from the pause's end to say what is left of it.
--
-- The rendering of charts, the application of a manifest, the installation of CRDs and CNI, and the
-- patches of addons are calls of Mesh with arbitrary results. The in-memory reconciler of a control
-- plane is a record that reconciliations pass on; the earliest times of reconciliation, which travel
-- in the context, are a field of it. A nil component status that Go would dereference ends the
-- reconciliation with an error of its own, nil_dereference. The order in which Go visits a map is the
-- order of the association list that stands for it. Reconciliations of one mesh run one at a time.
--
-- The concurrent access reviews of MemberRollValidator are made in the order in which their results
-- arrive, which is a parameter.
--
-- The loops of validateUpdate over versions run on the new and the old version's number, which is no
-- less than the number of rounds.
--
-- Including profiles recurs on fuel, which bounds the depth of inclusion: each level of it uses one,
-- and so does the empty list of profiles that ends it, so that fuel two more than the greatest rank of
-- the given profiles is enough where each includes only profiles of a lower rank. Profiles that include
-- each other would never end, since nothing is ever added to the set of visited ones.
--
-- Not modelled: logging and the registration of watches; the defaulting webhook of control planes
-- and most of their validation; ApplyProfiles with the images of disconnected installs, the other parts
-- of the versions' strategies, and the conversion of control planes; the accessors of Helm values and
-- the rendering of charts, which call libraries; the hooks that patch addons; CNI, bootstrap,
-- certificates and process start, which are I/O; and the vendored libraries, which are parameters.
mod Prelude
pub mod Prog
pub mod Errors
pub mod Status
pub mod Kube
pub mod Common
pub mod Member
pub mod Versions
pub mod Roll
pub mod Webhooks
pub mod Mesh
pub mod Profiles
mod Examples
