-- ===== src/Presence/Refinement.antt =====
-- The registry is a set of pairs of a user and a socket: src/presence/presence.service.ts.
use workspacebridge_backend.Base.{
  ◌≡◌, Bool, not, ◌&&◌, ◌||◌, List, [], ◌∷◌, arith, inl, inr, ◌==◌, length, elem, ==_iff, ==_self,
  Bool-cases, ap, subst,
}
use workspacebridge_backend.Store.{Text}
use workspacebridge_backend.Presence.{Registry, discard, add, remove, is_online, get_socket_ids}
use workspacebridge_backend.Presence.Lookups.{
  elem-insert, elem-discard, no_members, lookup-add_self, lookup-add_other, lookup-remove_self,
  lookup-remove_other, length-insert,
}

pub data PresenceEvent : Type 0 where
  adds removes : Text → Text → PresenceEvent

abbrev pub handle : PresenceEvent → Registry → Registry
handle (PresenceEvent.adds u s) r = add u s r
handle (PresenceEvent.removes u s) r = remove u s r

pub run : List PresenceEvent → Registry → Registry
run [] r = r
run (e ∷ es) r = run es (handle e r)

-- The abstract registry: which pairs of a user and a socket are connected.
abbrev pub Connected : Type 0
Connected = Text → Text → Bool

abbrev pub update : PresenceEvent → Connected → Connected
update (PresenceEvent.adds u s) c v t = c v t || u == v && t == s
update (PresenceEvent.removes u s) c v t = c v t && not (u == v && t == s)

pub abstract_run : List PresenceEvent → Connected → Connected
abstract_run [] c = c
abstract_run (e ∷ es) c = abstract_run es (update e c)

-- A registry stands for a set of pairs: the same sockets of each user, and no user without one.
pub record Represents (r : Registry) (c : Connected) : Type 0 where
  pub sockets : (v t : Text) → elem t (get_socket_ids v r) ≡ c v t
  pub nonempty : (v : Text) → is_online v r ≡ not (length (get_socket_ids v r) == 0)

pub add-sockets :
    (u s v t : Text) (r : Registry)
    → elem t (get_socket_ids v (add u s r)) ≡ (elem t (get_socket_ids v r) || u == v && t == s)
add-sockets u s v t r = elim (Bool-cases (u == v)) [
  | inl same ↦
      subst
        (λ w.
          elem t (get_socket_ids w (add u s r)) ≡ (elem t (get_socket_ids w r) || u == w && t == s))
        ((==_iff u v).0 same)
        (ground (arith, ==_self u, lookup-add_self u s r, elem-insert t s (get_socket_ids u r)))
  | inr other ↦ ground (arith, lookup-add_other u s v r other)
]

add-nonempty :
    (u s v : Text) (r : Registry)
    → is_online v r ≡ not (length (get_socket_ids v r) == 0)
    → is_online v (add u s r) ≡ not (length (get_socket_ids v (add u s r)) == 0)
add-nonempty u s v r h = elim (Bool-cases (u == v)) [
  | inl same ↦
      subst (λ w. is_online w (add u s r) ≡ not (length (get_socket_ids w (add u s r)) == 0))
        ((==_iff u v).0 same) (rw (lookup-add_self u s r, length-insert s (get_socket_ids u r)))
  | inr other ↦ rw (lookup-add_other u s v r other) h
]

pub remove-sockets :
    (u s v t : Text) (r : Registry)
    → elem t (get_socket_ids v (remove u s r))
      ≡ (elem t (get_socket_ids v r) && not (u == v && t == s))
unfolding elem
remove-sockets u s v t r = elim (Bool-cases (u == v)) [
  | inl same ↦
      let rest = discard s (get_socket_ids u r) in
      subst
        (λ w.
          elem t (get_socket_ids w (remove u s r))
          ≡ (elem t (get_socket_ids w r) && not (u == w && t == s)))
        ((==_iff u v).0 same)
        (elim (Bool-cases (length rest == 0)) [
          | inl last ↦ ground (
            arith,
            ==_self u,
            lookup-remove_self u s r,
            elem-discard t s (get_socket_ids u r),
            ap (elem t) (no_members rest last),
          )
          | inr more ↦
              ground
                (arith, ==_self u, lookup-remove_self u s r, elem-discard t s (get_socket_ids u r))
        ])
  | inr other ↦ ground (arith, lookup-remove_other u s v r other)
]

remove-nonempty :
    (u s v : Text) (r : Registry)
    → is_online v r ≡ not (length (get_socket_ids v r) == 0)
    → is_online v (remove u s r) ≡ not (length (get_socket_ids v (remove u s r)) == 0)
remove-nonempty u s v r h = elim (Bool-cases (u == v)) [
  | inl same ↦
      let rest = discard s (get_socket_ids u r) in
      subst (λ w. is_online w (remove u s r) ≡ not (length (get_socket_ids w (remove u s r)) == 0))
        ((==_iff u v).0 same)
        (elim (Bool-cases (length rest == 0)) [
          | inl last ↦ rw (lookup-remove_self u s r, last)
          | inr more ↦ rw (lookup-remove_self u s r, more, more)
        ])
  | inr other ↦ rw (lookup-remove_other u s v r other) h
]

handle-Represents :
    (e : PresenceEvent) (r : Registry) (c : Connected)
    → Represents r c
    → Represents (handle e r) (update e c)
handle-Represents (PresenceEvent.adds u s) r c h = record {
  sockets = λ v t. ground (arith, add-sockets u s v t r, h.sockets v t);
  nonempty = λ v. add-nonempty u s v r (h.nonempty v);
}
handle-Represents (PresenceEvent.removes u s) r c h = record {
  sockets = λ v t. ground (arith, remove-sockets u s v t r, h.sockets v t);
  nonempty = λ v. remove-nonempty u s v r (h.nonempty v);
}

-- Whatever sockets connect and disconnect, in whatever order, a registry that stands for a set of
-- connected pairs goes on standing for it: the same sockets of each user, and a user is online
-- just when a socket of theirs is left.
pub run-Represents :
    (es : List PresenceEvent) (r : Registry) (c : Connected)
    → Represents r c
    → Represents (run es r) (abstract_run es c)
unfolding run abstract_run
run-Represents [] r c h = h
run-Represents (e ∷ es) r c h =
    run-Represents es (handle e r) (update e c) (handle-Represents e r c h)
