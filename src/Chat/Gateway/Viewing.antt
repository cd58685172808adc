-- ===== src/Chat/Gateway/Viewing.antt =====
-- Who has a thread open: addViewer, removeViewer and handleDisconnect of src/message/message.gateway.ts.
use workspacebridge_backend.Base.{
  ◌≡◌, refl, subst, Bool, true, false, not, ◌&&◌, ◌||◌, none, some, [], ◌∷◌, arith, inl, inr, ◌==◌,
  or_else, truthy, length, elem, Option-cases, Bool-cases, ==_iff, ==_self,
}
use workspacebridge_backend.Store.{Text}
use workspacebridge_backend.Presence
use workspacebridge_backend.Presence.{Registry, lookup, put, drop_key, get_socket_ids}
use workspacebridge_backend.Presence.Lookups.{
  lookup-put_self, lookup-put_other, lookup-drop_key_self, lookup-drop_key_other,
  lookup-append_self, lookup-append_other,
}
use workspacebridge_backend.Presence.Refinement.{add-sockets, remove-sockets}
use workspacebridge_backend.Chat.Gateway.{
  Viewers, ChatClient, user_of, viewers_in, drop_viewer, put_viewer, leave_other, remove_viewer,
  add_viewer, ChatServer, handle_disconnect,
}

-- The socket of a user has the thread of a workspace open.
abbrev pub views : Text → Text → Text → Viewers → Bool
views w u s viewers = elem s (get_socket_ids u (viewers_in w viewers))

no_registry :
    (r : Registry) (u s : Text) → (length r == 0) ≡ true → elem s (get_socket_ids u r) ≡ false
unfolding lookup elem
no_registry [] u s e = refl
no_registry (x ∷ r) u s e = ground arith

pub views-put_viewer :
    (w u s w' u' s' : Text) (viewers : Viewers)
    → views w' u' s' (put_viewer w u s viewers)
      ≡ (views w' u' s' viewers || w == w' && (u == u' && s' == s))
unfolding put_viewer lookup elem
views-put_viewer w u s w' u' s' viewers = elim (Bool-cases (w == w')) [
  | inl same ↦
      let here : w ≡ w' = (==_iff w w').0 same in
      subst
        (λ k.
          views k u' s' (put_viewer w u s viewers)
          ≡ (views k u' s' viewers || w == k && (u == u' && s' == s)))
        here
        (elim (Option-cases (lookup w viewers)) [
          | inl gone ↦ ground (
            arith,
            ==_self w,
            lookup-append_self w (Presence.add u s []) viewers gone,
            add-sockets u s u' s' [],
          )
          | inr (r, e) ↦ ground (
            arith,
            ==_self w,
            lookup-put_self w (Presence.add u s r) r viewers e,
            add-sockets u s u' s' r,
          )
        ])
  | inr other ↦ elim (Option-cases (lookup w viewers)) [
    | inl gone ↦ ground (arith, lookup-append_other w w' (Presence.add u s []) viewers other)
    | inr (r, e) ↦ ground (arith, lookup-put_other w w' (Presence.add u s r) viewers other)
  ]
]

views-drop_viewer :
    (w u s w' u' s' : Text) (viewers : Viewers)
    → views w' u' s' (drop_viewer w u s viewers)
      ≡ (views w' u' s' viewers && not (w == w' && (u == u' && s' == s)))
unfolding drop_viewer lookup elem
views-drop_viewer w u s w' u' s' viewers = elim (Bool-cases (w == w')) [
  | inl same ↦
      let here : w ≡ w' = (==_iff w w').0 same in
      subst
        (λ k.
          views k u' s' (drop_viewer w u s viewers)
          ≡ (views k u' s' viewers && not (w == k && (u == u' && s' == s))))
        here
        (elim (Option-cases (lookup w viewers)) [
          | inl gone ↦ ground (arith, ==_self w)
          | inr (r, e) ↦ elim (Bool-cases (length (Presence.remove u s r) == 0)) [
            | inl last ↦ ground (
              arith,
              ==_self w,
              lookup-drop_key_self w viewers,
              remove-sockets u s u' s' r,
              no_registry (Presence.remove u s r) u' s',
            )
            | inr more ↦ ground (
              arith,
              ==_self w,
              lookup-put_self w (Presence.remove u s r) r viewers e,
              remove-sockets u s u' s' r,
            )
          ]
        ])
  | inr other ↦ elim (Option-cases (lookup w viewers)) [
    | inl gone ↦ ground arith
    | inr (r, e) ↦ elim (Bool-cases (length (Presence.remove u s r) == 0)) [
      | inl last ↦ ground (arith, lookup-drop_key_other w w' viewers other)
      | inr more ↦ ground (arith, lookup-put_other w w' (Presence.remove u s r) viewers other)
    ]
  ]
]

-- What a client remembers is what the server counts: its socket has the thread of `viewing` open, and no
-- other.
pub record Tracks (c : ChatClient) (viewers : Viewers) : Type 0 where
  pub named : (elim c.viewing [ none ↦ true | some k ↦ not (k == 0) ]) ≡ true
  pub counted :
      (w : Text)
      → views w (user_of c) c.socket.id viewers
        ≡ (elim c.viewing [ none ↦ false | some k ↦ k == w ])

-- Another socket sees no difference.
abbrev pub SameFor : Text → Text → Viewers → Viewers → Type 0
SameFor u s viewers viewers' = (w : Text) → views w u s viewers' ≡ views w u s viewers

leave_other_own :
    (w k : Text) (c : ChatClient) (viewers : Viewers)
    → Tracks c viewers
    → views k (user_of c) c.socket.id (leave_other w c viewers)
      ≡ (views k (user_of c) c.socket.id viewers && k == w)
leave_other_own w k c viewers h = elim (Option-cases c.viewing) [
  | inl idle ↦ ground (arith, idle, h.counted k)
  | inr (j, e) ↦
      let own = views-drop_viewer j (user_of c) c.socket.id k (user_of c) c.socket.id viewers in
      ground (
        arith,
        e,
        h.counted k,
        own,
        ==_self (user_of c),
        ==_self c.socket.id,
        ==_iff j k,
        ==_iff j w,
      )
]

leave_other_rest :
    (w k : Text) (c : ChatClient) (viewers : Viewers) (u t : Text)
    → (user_of c == u && t == c.socket.id) ≡ false
    → views k u t (leave_other w c viewers) ≡ views k u t viewers
leave_other_rest w k c viewers u t ne =
    ground (arith, views-drop_viewer (or_else c.viewing 0) (user_of c) c.socket.id k u t viewers)

opened_tracked :
    (w : Text) (c : ChatClient) (viewers : Viewers) (u t : Text)
    → Tracks c viewers
    → (w == 0) ≡ false
    → (user_of c == u && t == c.socket.id) ≡ false
    → let opened = add_viewer w c viewers in
      Tracks opened.0 opened.1 × (opened.0.viewing ≡ some w) × SameFor u t viewers opened.1
unfolding add_viewer
opened_tracked w c viewers u t h n ne =
    let rest = leave_other w c viewers in
    (
      record {
        named = ground arith;
        counted = λ k. ground (
          arith,
          views-put_viewer w (user_of c) c.socket.id k (user_of c) c.socket.id rest,
          leave_other_own w k c viewers h,
          ==_self (user_of c),
          ==_self c.socket.id,
          ==_iff w k,
        );
      },
      refl,
      (λ k. ground (
        arith,
        views-put_viewer w (user_of c) c.socket.id k u t rest,
        leave_other_rest w k c viewers u t ne,
      )),
    )

left_tracked :
    (w : Text) (c : ChatClient) (viewers : Viewers) (u t : Text)
    → Tracks c viewers
    → (user_of c == u && t == c.socket.id) ≡ false
    → let left = remove_viewer w c viewers in
      Tracks left.0 left.1
      × (views w (user_of c) c.socket.id left.1 ≡ false)
      × SameFor u t viewers left.1
unfolding remove_viewer
left_tracked w c viewers u t h ne =
    let own =
      λ (k : Text). views-drop_viewer w (user_of c) c.socket.id k (user_of c) c.socket.id viewers in
    (
      record {
        named = ground (arith, h.named);
        counted = λ k. elim (Option-cases c.viewing) [
          | inl idle ↦ ground (arith, idle, own k, h.counted k)
          | inr (j, e) ↦ ground (
            arith,
            e,
            own k,
            h.counted k,
            ==_self (user_of c),
            ==_self c.socket.id,
            ==_iff w k,
            ==_iff j k,
            ==_iff j w,
          )
        ];
      },
      ground (arith, own w, ==_self (user_of c), ==_self c.socket.id, ==_self w),
      (λ k. ground (arith, views-drop_viewer w (user_of c) c.socket.id k u t viewers)),
    )

gone_tracked :
    (c : ChatClient) (s : ChatServer) (u t : Text)
    → Tracks c s.viewers
    → (user_of c == u && t == c.socket.id) ≡ false
    → truthy c.socket.user_id ≡ true
    → let gone = handle_disconnect c s in
      Tracks gone.0 gone.1.viewers × (gone.0.viewing ≡ none) × SameFor u t s.viewers gone.1.viewers
unfolding handle_disconnect
gone_tracked c s u t h ne k = elim (Option-cases c.viewing) [
  | inl idle ↦ (
    record { named = ground (arith, idle); counted = λ w. ground (arith, idle, h.counted w) },
    ground (arith, idle),
    (λ w. ground (arith, idle)),
  )
  | inr (j, e) ↦
      let there : not (j == 0) ≡ true = ground (arith, e, h.named) in
      let own = λ (w : Text).
        views-drop_viewer j (user_of c) c.socket.id w (user_of c) c.socket.id s.viewers in
      (
        record {
          named = ground (arith, e);
          counted = λ w.
              ground (
                arith,
                e,
                own w,
                h.counted w,
                ==_self (user_of c),
                ==_self c.socket.id,
                ==_iff j w,
              );
        },
        ground (arith, e),
        (λ w. ground (arith, e, views-drop_viewer j (user_of c) c.socket.id w u t s.viewers)),
      )
]

-- Opening a thread, leaving one and disconnecting keep the count exact: the socket has the new thread
-- open and no other, not the left one, or none at all; nothing changes for any other socket.
pub viewing_tracked :
    (w : Text) (c : ChatClient) (s : ChatServer) (u t : Text)
    → Tracks c s.viewers
    → (w == 0) ≡ false
    → (user_of c == u && t == c.socket.id) ≡ false
    → truthy c.socket.user_id ≡ true
    → let opened = add_viewer w c s.viewers in
      let left = remove_viewer w c s.viewers in
      let gone = handle_disconnect c s in
      (Tracks opened.0 opened.1 × (opened.0.viewing ≡ some w) × SameFor u t s.viewers opened.1)
      × (Tracks left.0 left.1
          × (views w (user_of c) c.socket.id left.1 ≡ false)
          × SameFor u t s.viewers left.1)
      × (Tracks gone.0 gone.1.viewers
          × (gone.0.viewing ≡ none)
          × SameFor u t s.viewers gone.1.viewers)
viewing_tracked w c s u t h n ne k = (
  opened_tracked w c s.viewers u t h n ne,
  left_tracked w c s.viewers u t h ne,
  gone_tracked c s u t h ne k,
)
