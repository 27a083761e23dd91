-- ===== src/Service/Dispatch.antt =====
-- src/rpc_service.c: instances in a context, and the dispatch of a call to a member.
use librpc.Connection.Calls.{refused, submitted, Dispatched}
use librpc.Base.Int.{pos, negsuc, ℤ}
use librpc.Object.Types.{array, fields, dictionary, string, cons, nil, Object, Items}
use librpc.Connection.Call.{Call}
use librpc.Object.Value.{string_create}
use librpc.Service.Registry.{
  discoverable_interface, enoent, method_member, default_interface, Member, Instance, Context,
  find_member,
}
use librpc.Object.Dictionary.{insert}
use librpc.Base.{
  true, put, drop_key, is_some, [], ◌∷◌, ◌++◌, none, find, codes, some, if◌then◌else◌, Bytes,
  Option, ℕ, Table,
}

interface_names : Table (Table Member) → Items
interface_names [] = nil
interface_names ((name, members) ∷ rest) = cons (string name) (interface_names rest)

unfoldable pub emit_event : Context → Bytes → Bytes → Bytes → Object → Context
emit_event context path interface name args = record context {
  emit_queue =
      context.emit_queue
      ++ (record { path = path; interface = interface; name = name; args = args }) ∷ [];
}

-- rpc_context_register_instance: the context, and the return value.
unfoldable pub register_instance : Context → Instance → Context × ℤ
unfolding emit_event interface_names insert string_create
register_instance context instance =
    if is_some (find instance.path context.instances)
    then (context, negsuc 0)
    else (let payload = dictionary (
          fields (
            insert (codes "interfaces") (array (interface_names instance.interfaces))
              (insert (codes "path") (string_create (some instance.path)) []))) in
        let told =
          emit_event context (codes "/") discoverable_interface (codes "instance_added") payload in
        (
          record told {
            instances = put instance.path (record instance { registered = true }) told.instances;
          },
          pos 0,
        ))

unfoldable pub unregister_instance : Context → Bytes → Context
unfolding emit_event string_create
unregister_instance context path =
    if is_some (find path context.instances)
    then (let told =
          emit_event context (codes "/") discoverable_interface (codes "instance_removed")
            (string_create (some path)) in
        record told { instances = drop_key path told.instances })
    else context

-- rpc_instance_find_and_retain: an instance that is being freed counts as none.
unfoldable pub find_and_retain : Context → Bytes → Option Instance
find_and_retain context path = elim (find path context.instances) [
  | none ↦ none
  | some instance ↦ if instance.destroyed then none else some instance
]

-- The member that a call is for: that of its name, or else the method method_missing.
unfoldable pub call_member : Instance → Call → Option Member
unfolding find_member
call_member instance call = elim (find_member instance call.interface (some call.method_name)) [
  | some member ↦ some member
  | none ↦ find_member instance (some default_interface) (some (codes "method_missing"))
]

abbrev pub path_or_root : Option Bytes → Bytes
path_or_root none = codes "/"
path_or_root (some path) = path

-- What rpc_context_dispatch finds for a call: the block of a method, or the message of its error.
pub data Found : Type 0 where
  method_found : ℕ → Found
  missing : Bytes → Found

unfoldable pub method_of : Option Member → Found
method_of (some (method_member block)) = method_found block
method_of _ = missing (codes "Member not found")

unfoldable pub find_method : Context → Call → Found
unfolding find_and_retain call_member method_of
find_method context call = elim (find_and_retain context (path_or_root call.path)) [
  | none ↦ missing (codes "No valid instance found")
  | some instance ↦ method_of (call_member instance call)
]

-- rpc_context_dispatch, for a connection that is open, where the thread pool takes the call.
unfoldable pub context_dispatch : Context → Call → Dispatched
unfolding find_method
context_dispatch context call = elim (find_method context call) [
  | method_found block ↦ submitted
  | missing msg ↦ refused (some (enoent, msg))
]
