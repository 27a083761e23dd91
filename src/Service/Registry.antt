-- ===== src/Service/Registry.antt =====
-- src/rpc_service.c: contexts, instances, interfaces and members, and what is registered in them.
use librpc.Object.Value.{string_create}
use librpc.Object.Types.{Object}
use librpc.Base.Int.{negsuc, pos, ℤ}
use librpc.Base.{
  ◌+◌, not, is_some, get_or, ◌&&◌, length, ltb, ◌==◌, put, ◌∷◌, none, false, [], Bool, ℕ, find,
  codes, some, drop_key, if◌then◌else◌, Bytes, Table, Option, List,
}

-- struct rpc_if_member: a method with its block, a property with or without getter and setter. The code
-- behind a block, a getter or a setter is the program's, known here by a number.
pub data Member : Type 0 where
  event_member : Member
  property_member : Option ℕ → Option ℕ → Member
  method_member : ℕ → Member

-- struct rpc_instance. `registered` says that ri_context is set.
pub record Instance : Type 0 where
  pub path : Bytes
  pub interfaces : Table (Table Member)
  pub registered : Bool
  pub destroyed : Bool

-- struct emit_item
pub record Emitted : Type 0 where
  pub path : Bytes
  pub interface : Bytes
  pub name : Bytes
  pub args : Object

-- struct rpc_context: its instances and its queue of events.
pub record Context : Type 0 where
  pub instances : Table Instance
  pub emit_queue : List Emitted

abbrev pub enoent : ℤ
enoent = pos 2

abbrev pub default_interface : Bytes
default_interface = codes "com.twoporeguys.librpc.Default"

abbrev pub discoverable_interface : Bytes
discoverable_interface = codes "com.twoporeguys.librpc.Discoverable"

abbrev pub introspectable_interface : Bytes
introspectable_interface = codes "com.twoporeguys.librpc.Introspectable"

abbrev pub observable_interface : Bytes
observable_interface = codes "com.twoporeguys.librpc.Observable"

abbrev pub or_default : Option Bytes → Bytes
or_default none = default_interface
or_default (some interface) = interface

-- rpc_context_path_is_valid
unfoldable pub path_is_valid : Bytes → Bool
path_is_valid [] = false
path_is_valid (first ∷ rest) =
    if first == b'/'
    then not (ltb 1 (length (first ∷ rest)) && get_or (first ∷ rest) (length rest) 0 == b'/')
    else false

unfoldable pub find_member : Instance → Option Bytes → Option Bytes → Option Member
find_member instance interface none = none
find_member instance interface (some name) =
    elim (find (or_default interface) instance.interfaces) [
      | none ↦ none
      | some members ↦ find name members
    ]

unfoldable pub has_interface : Instance → Bytes → Bool
has_interface instance interface = is_some (find interface instance.interfaces)

-- rpc_instance_emit_event: an instance without a context drops the event.
unfoldable pub instance_emit_event : Instance → Bytes → Bytes → Object → List Emitted
instance_emit_event instance interface name args =
    if instance.registered
    then (record { path = instance.path; interface = interface; name = name; args = args }) ∷ []
    else []

-- The instance, and the return value.
unfoldable pub register_member : Instance → Option Bytes → Bytes → Member → Instance × ℤ
register_member instance interface name member =
    elim (find (or_default interface) instance.interfaces) [
      | none ↦ (instance, negsuc 0)
      | some members ↦ (
        record instance {
          interfaces = put (or_default interface) (put name member members) instance.interfaces;
        },
        pos 0,
      )
    ]

unfoldable pub unregister_member : Instance → Option Bytes → Bytes → Instance × ℤ
unregister_member instance interface name = elim (find (or_default interface) instance.interfaces) [
  | none ↦ (instance, negsuc 0)
  | some members ↦
      if is_some (find name members)
      then (
        record instance {
          interfaces = put (or_default interface) (drop_key name members) instance.interfaces;
        },
        pos 0,
      )
      else (instance, negsuc 0)
]

-- The loop of rpc_instance_register_interface over a vtable.
register_vtable : Table Member → Bytes → Instance → Instance
unfolding register_member
register_vtable [] interface instance = instance
register_vtable ((name, member) ∷ rest) interface instance =
    register_vtable rest interface (register_member instance (some interface) name member).0

-- The instance, and the events that it emits.
unfoldable pub register_interface : Instance → Bytes → Table Member → Instance × List Emitted
unfolding has_interface register_vtable instance_emit_event
register_interface instance interface vtable =
    if has_interface instance interface
    then (instance, [])
    else (let added = record instance { interfaces = put interface [] instance.interfaces } in
        let full = register_vtable vtable interface added in
        (
          full,
          instance_emit_event full introspectable_interface (codes "interface_added")
              (string_create (some interface)),
        ))

unfoldable pub unregister_interface : Instance → Bytes → Instance × List Emitted
unfolding instance_emit_event
unregister_interface instance interface =
    let left = record instance { interfaces = drop_key interface instance.interfaces } in
    (
      left,
      instance_emit_event left introspectable_interface (codes "interface_removed")
          (string_create (some interface)),
    )

-- The number is the bits RPC_PROPERTY_READ and RPC_PROPERTY_WRITE.
unfoldable pub get_property_rights : Instance → Option Bytes → Option Bytes → ℤ
unfolding find_member
get_property_rights instance interface name = elim (find_member instance interface name) [
  | some (property_member getter setter) ↦
      pos ((if is_some getter then 1 else 0) + (if is_some setter then 2 else 0))
  | other ↦ negsuc 0
]

-- The tables of the four interfaces of a new instance; their methods are this library's own.
discoverable_vtable : Table Member
discoverable_vtable =
    (codes "instance_added", event_member)
    ∷ (codes "instance_removed", event_member)
    ∷ (codes "get_instances", method_member 0)
    ∷ []

introspectable_vtable : Table Member
introspectable_vtable =
    (codes "interface_added", event_member)
    ∷ (codes "interface_removed", event_member)
    ∷ (codes "get_interfaces", method_member 1)
    ∷ (codes "get_methods", method_member 2)
    ∷ (codes "get_events", method_member 3)
    ∷ (codes "interface_exists", method_member 4)
    ∷ []

observable_vtable : Table Member
observable_vtable =
    (codes "changed", event_member)
    ∷ (codes "get", method_member 5)
    ∷ (codes "get_all", method_member 6)
    ∷ (codes "set", method_member 7)
    ∷ []

unfoldable pub instance_new : Bytes → Option Instance
unfolding path_is_valid register_interface discoverable_vtable introspectable_vtable
    observable_vtable
instance_new path =
    if path_is_valid path
    then (let bare : Instance = record {
      path = path;
      interfaces = [];
      registered = false;
      destroyed = false;
    } in
        let a = (register_interface bare discoverable_interface discoverable_vtable).0 in
        let b = (register_interface a introspectable_interface introspectable_vtable).0 in
        let c = (register_interface b default_interface []).0 in
        some ((register_interface c observable_interface observable_vtable).0))
    else none
