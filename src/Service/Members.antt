-- ===== src/Service/Members.antt =====
-- src/rpc_service.c: what is registered is found, and called.
use librpc.Base.Int.{negsuc, pos}
use librpc.Connection.Calls.{submitted}
use librpc.Service.Dispatch.{context_dispatch, method_found, register_instance, find_method}
use librpc.Connection.Call.{Call}
use librpc.Service.Registry.{
  method_member, or_default, default_interface, Member, has_interface, register_member,
  unregister_member, Instance, Context, find_member,
}
use librpc.Base.{
  sym, ap, ◌∙◌, find-drop_key, drop_key, put, find-put, bytes_eq_refl, refl, bytes_eq_iff, Table,
  arith, none, find, ◌&&◌, false, true, bytes_eq, if◌then◌else◌, ◌≡◌, some, ℕ, Option, Bytes,
}

register_by :
    (instance : Instance) (interface j : Option Bytes) (name k : Bytes) (member : Member)
    (found : Option (Table Member))
    → find (or_default interface) instance.interfaces ≡ found
    → find_member (register_member instance interface name member).0 j (some k) ≡ (
        if has_interface instance (or_default interface)
          && (bytes_eq (or_default interface) (or_default j) && bytes_eq name k)
        then some member
        else find_member instance j (some k))
unfolding find_member register_member has_interface
register_by instance interface j name k member none e = ground (arith, e)
register_by instance interface j name k member (some members) e = ground (
  arith,
  e,
  find-put (or_default interface) (or_default j) (put name member members) instance.interfaces,
  find-put name k member members,
  bytes_eq_iff (or_default interface) (or_default j),
)

unregister_by :
    (instance : Instance) (interface j : Option Bytes) (name k : Bytes)
    (found : Option (Table Member))
    → find (or_default interface) instance.interfaces ≡ found
    → find_member (unregister_member instance interface name).0 j (some k) ≡ (
        if bytes_eq (or_default interface) (or_default j) && bytes_eq name k
        then none
        else find_member instance j (some k))
unfolding find_member unregister_member
unregister_by instance interface j name k none e =
    ground (arith, e, bytes_eq_iff (or_default interface) (or_default j))
unregister_by instance interface j name k (some members) e = ground (
  arith,
  e,
  find-put (or_default interface) (or_default j) (drop_key name members) instance.interfaces,
  find-drop_key name k members,
  bytes_eq_iff (or_default interface) (or_default j),
  bytes_eq_iff name k,
)

register_returns :
    (instance : Instance) (interface : Option Bytes) (name : Bytes) (member : Member)
    → ((register_member instance interface name member).1
        ≡ (if has_interface instance (or_default interface) then pos 0 else negsuc 0))
      × (has_interface instance (or_default interface) ≡ false
          → (register_member instance interface name member).0 ≡ instance)
unfolding register_member has_interface
register_returns instance interface name member = ground arith

-- rpc_instance_register_member makes the member found under its interface and name, changes nothing
-- else that can be found, and returns 0; where the instance lacks the interface it returns -1 and leaves
-- the instance as it was.
pub find_member-register_member :
    (instance : Instance) (interface j : Option Bytes) (name k : Bytes) (member : Member)
    → (find_member (register_member instance interface name member).0 j (some k) ≡ (
        if has_interface instance (or_default interface)
          && (bytes_eq (or_default interface) (or_default j) && bytes_eq name k)
        then some member
        else find_member instance j (some k)))
      × ((register_member instance interface name member).1
          ≡ (if has_interface instance (or_default interface) then pos 0 else negsuc 0))
      × (has_interface instance (or_default interface) ≡ false
          → (register_member instance interface name member).0 ≡ instance)
find_member-register_member instance interface j name k member =
    let r = register_returns instance interface name member in
    (register_by instance interface j name k member _ refl, r.0, r.1)

-- The same for a removal.
find_member-unregister_member :
    (instance : Instance) (interface j : Option Bytes) (name k : Bytes)
    → find_member (unregister_member instance interface name).0 j (some k) ≡ (
        if bytes_eq (or_default interface) (or_default j) && bytes_eq name k
        then none
        else find_member instance j (some k))
find_member-unregister_member instance interface j name k =
    unregister_by instance interface j name k _ refl

register_member_lem :
    (instance : Instance) (interface : Option Bytes) (name : Bytes) (member : Member)
    → ((register_member instance interface name member).0.path ≡ instance.path)
      × ((register_member instance interface name member).0.destroyed ≡ instance.destroyed)
unfolding register_member
register_member_lem instance interface name member = ground arith

-- A call to a method that its registered instance has.
reached :
    (context : Context) (instance : Instance) (name : Bytes) (block : ℕ) (call : Call)
    → instance.destroyed ≡ false
    → find instance.path context.instances ≡ none
    → call.path ≡ some instance.path
    → call.interface ≡ none
    → call.method_name ≡ name
    → find_member instance none (some name) ≡ some (method_member block)
    → find_method (register_instance context instance).0 call ≡ method_found block
unfolding find_method register_instance find_member
reached context instance name block call d f p n m w = ground (
  arith,
  d,
  f,
  p,
  n,
  m,
  w,
  bytes_eq_refl instance.path,
  find-put instance.path instance.path (record instance { registered = true }) context.instances,
)

-- A method registered in the default interface of an instance that is then registered in a context
-- under a new path is what a call of that path and name, without an interface, comes to; so
-- the dispatch of the call submits it.
pub find_method-register_instance :
    (context : Context) (instance : Instance) (name : Bytes) (block : ℕ) (call : Call)
    → has_interface instance default_interface ≡ true
    → instance.destroyed ≡ false
    → find instance.path context.instances ≡ none
    → call.path ≡ some instance.path
    → call.interface ≡ none
    → call.method_name ≡ name
    → (find_method
          (register_instance context (register_member instance none name (method_member block)).0).0
          call
        ≡ method_found block)
      × (context_dispatch
            (register_instance context
              (register_member instance none name (method_member block)).0).0
            call
          ≡ submitted)
unfolding context_dispatch
find_method-register_instance context instance name block call i d f p n m =
    let l = register_member_lem instance none name (method_member block) in
    let found =
      reached context (register_member instance none name (method_member block)).0 name block call
        (l.1 ∙ d) (ap (λ (k : Bytes). find k context.instances) l.0 ∙ f) (p ∙ ap some (sym l.0)) n m
        ((find_member-register_member instance none none name name (method_member block)).0
          ∙ ground (arith, i, bytes_eq_refl name, bytes_eq_refl default_interface)) in
    (found, rw (found, context_dispatch) refl)
