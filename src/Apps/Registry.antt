-- ===== src/Apps/Registry.antt =====
-- The map of the launched applications and the bridges that its entries hold.
use proxy_for_windows_app.Base.{
  ℕ, ◌≡◌, ◌≢◌, sym, ap, ◌∙◌, ◌⊎◌, inl, inr, Option, none, some, List, ◌∷◌, arith, if◌then◌else◌, In,
  Option-cases, Bool-cases,
}
use proxy_for_windows_app.Base.Text.{Text, same, Text-discrete}
use proxy_for_windows_app.Base.Dict.{lookup, erase, lookup-insert, lookup-erase}
use proxy_for_windows_app.Apps.{Launched, Apps, close_bridge, remove_launched, enter_launched}

abbrev pub tracked : Text → Apps → Option Launched
tracked id a = lookup Text-discrete id a.launched

-- Every entry stands under its application's ID; no entry's bridge is closed; and two entries do not
-- share a bridge.
pub record IsSound (a : Apps) : Type 0 where
  pub keyed : (id : Text) (x : Launched) → tracked id a ≡ some x → x.app.id ≡ id
  pub live :
      (id : Text) (x : Launched) (b : ℕ)
      → tracked id a ≡ some x
      → x.bridge ≡ some b
      → ¬ In b a.closed
  pub own :
      (id j : Text) (x y : Launched) (b : ℕ)
      → tracked id a ≡ some x
      → tracked j a ≡ some y
      → x.bridge ≡ some b
      → y.bridge ≡ some b
      → id ≡ j

-- A bridge that was opened just now: no entry holds it, and it is not closed.
pub record IsFresh (b : ℕ) (a : Apps) : Type 0 where
  pub open_yet : ¬ In b a.closed
  pub untracked : (id : Text) (x : Launched) → tracked id a ≡ some x → x.bridge ≢ some b

tracked-enter :
    (id : Text) (item : Launched) (a : Apps)
    → tracked id (enter_launched item a) ≡ (if same id item.app.id then some item else tracked id a)
unfolding enter_launched close_bridge
tracked-enter id item a = ground (arith, lookup-insert Text-discrete id item.app.id item a.launched)

pub tracked-enter_self :
    (item : Launched) (a : Apps) → tracked item.app.id (enter_launched item a) ≡ some item
tracked-enter_self item a = ground (arith, tracked-enter item.app.id item a)

tracked-close_bridge :
    (id : Text) (b : Option ℕ) (a : Apps) → tracked id (close_bridge b a) ≡ tracked id a
unfolding close_bridge
tracked-close_bridge id b a = ground arith

-- A monitor that ends late does no harm: removing an instance that was replaced by another instance of
-- its application changes nothing.
pub remove_launched-stale :
    (old new : Launched) (a : Apps)
    → old.app.id ≡ new.app.id
    → old.instance_id ≢ new.instance_id
    → remove_launched old (enter_launched new a) ≡ enter_launched new a
unfolding remove_launched
remove_launched-stale old new a same_app other = ground (arith, tracked-enter old.app.id new a)

-- The bridges that are closed once a bridge, if there is one, is closed.
abbrev pub with_closed : Option ℕ → List ℕ → List ℕ
with_closed none bs = bs
with_closed (some b) bs = b ∷ bs

-- Removing an instance that was entered takes its application, and no other, out of the map, and
-- closes its bridge, if it has one, and no other.
pub remove_launched-enter :
    (item : Launched) (a : Apps) (id : Text)
    → let after = remove_launched item (enter_launched item a) in
      (tracked id after ≡ (if same id item.app.id then none else tracked id a))
      × (after.closed ≡ with_closed item.bridge (enter_launched item a).closed)
unfolding remove_launched close_bridge
remove_launched-enter item a id = ground (
  arith,
  tracked-enter_self item a,
  tracked-enter id item a,
  lookup-erase Text-discrete id item.app.id (enter_launched item a).launched,
)

-- Entering an instance closes the bridge of the instance that it replaces, if that one is another
-- instance of the application, and no other bridge.
pub closed-enter :
    (item previous : Launched) (a : Apps)
    → tracked item.app.id a ≡ some previous
    → previous.instance_id ≢ item.instance_id
    → (enter_launched item a).closed ≡ with_closed previous.bridge a.closed
unfolding enter_launched close_bridge
closed-enter item previous a kept other = ground arith

closed-enter_cases :
    (item : Launched) (a : Apps)
    → ((enter_launched item a).closed ≡ a.closed)
      ⊎ ((previous : Launched) × (b : ℕ) × (tracked item.app.id a ≡ some previous)
          × (previous.bridge ≡ some b)
          × ((enter_launched item a).closed ≡ b ∷ a.closed))
unfolding enter_launched close_bridge
closed-enter_cases item a = elim (Option-cases (tracked item.app.id a)) [
  | inl fresh ↦ inl (ground arith)
  | inr (previous, kept) ↦ elim (Option-cases previous.bridge) [
    | inl no_bridge ↦ inl (ground arith)
    | inr (b, bridge) ↦ elim (Bool-cases (same previous.instance_id item.instance_id)) [
      | inl again ↦ inl (ground arith)
      | inr replaced ↦ inr (previous, b, kept, bridge, ground arith)
    ]
  ]
]

-- The entries after an instance was entered: the instance itself, and those of the other applications.
tracked-enter_cases :
    (id : Text) (item : Launched) (a : Apps) {x : Launched}
    → tracked id (enter_launched item a) ≡ some x
    → ((id ≡ item.app.id) × (x ≡ item)) ⊎ ((id ≢ item.app.id) × (tracked id a ≡ some x))
tracked-enter_cases id item a e = ground (arith, tracked-enter id item a)

In-cons : {b c : ℕ} (bs : List ℕ) → In b (c ∷ bs) → (b ≡ c) ⊎ In b bs
In-cons bs m = m

module _ (item : Launched) (a : Apps) (s : IsSound a)
    (fresh : (b : ℕ) → item.bridge ≡ some b → IsFresh b a) where
  enter-live :
      (id : Text) (x : Launched) (b : ℕ)
      → tracked id (enter_launched item a) ≡ some x
      → x.bridge ≡ some b
      → ¬ In b (enter_launched item a).closed
  enter-live id x b e h shut = elim (tracked-enter_cases id item a e) [
    | inl (here, is_item) ↦
        let new = fresh b (ap (λ (l : Launched). l.bridge) (sym is_item) ∙ h) in
        elim (closed-enter_cases item a) [
          | inl unchanged ↦ new.open_yet (rw unchanged at shut)
          | inr (previous, b', kept, bridge, closed) ↦ elim (In-cons a.closed (rw closed at shut)) [
            | inl e' ↦ new.untracked item.app.id previous kept (rw e' bridge)
            | inr earlier ↦ new.open_yet earlier
          ]
        ]
    | inr (other, old) ↦ elim (closed-enter_cases item a) [
      | inl unchanged ↦ s.live id x b old h (rw unchanged at shut)
      | inr (previous, b', kept, bridge, closed) ↦ elim (In-cons a.closed (rw closed at shut)) [
        | inl e' ↦ other (s.own id item.app.id x previous b old kept h (rw e' bridge))
        | inr earlier ↦ s.live id x b old h earlier
      ]
    ]
  ]

  enter-own :
      (id j : Text) (x y : Launched) (b : ℕ)
      → tracked id (enter_launched item a) ≡ some x
      → tracked j (enter_launched item a) ≡ some y
      → x.bridge ≡ some b
      → y.bridge ≡ some b
      → id ≡ j
  enter-own id j x y b ex ey hx hy = elim (tracked-enter_cases id item a ex) [
    | inl (here, is_item) ↦
        let new = fresh b (ap (λ (l : Launched). l.bridge) (sym is_item) ∙ hx) in
        elim (tracked-enter_cases j item a ey) [
          | inl (here', is_item') ↦ here ∙ sym here'
          | inr (other, old) ↦ absurd (new.untracked j y old hy)
        ]
    | inr (other, old) ↦ elim (tracked-enter_cases j item a ey) [
      | inl (here', is_item') ↦
          absurd
            ((fresh b (ap (λ (l : Launched). l.bridge) (sym is_item') ∙ hy)).untracked id x old hx)
      | inr (other', old') ↦ s.own id j x y b old old' hx hy
    ]
  ]

  -- Entering an instance whose bridge, if it has one, was opened just now keeps the map sound.
  pub enter_launched-IsSound : IsSound (enter_launched item a)
  enter_launched-IsSound = record {
    keyed = λ id x e. ground (arith, tracked-enter_cases id item a e, s.keyed id x);
    live = enter-live;
    own = enter-own;
  }

-- The state after a removal: unchanged, or without the application and with its bridge closed.
remove-cases :
    (item : Launched) (a : Apps)
    → (remove_launched item a ≡ a)
      ⊎ ((current : Launched) × (tracked item.app.id a ≡ some current)
          × (current.instance_id ≡ item.instance_id)
          × (remove_launched item a ≡ record {
            launched = erase Text-discrete item.app.id a.launched;
            closed = with_closed item.bridge a.closed;
          }))
unfolding remove_launched close_bridge
remove-cases item a = elim (Option-cases (tracked item.app.id a)) [
  | inl fresh ↦ inl (ground arith)
  | inr (current, kept) ↦ elim (Text-discrete current.instance_id item.instance_id) [
    | yes e ↦ inr (current, kept, e, ground arith)
    | no n ↦ inl (ground arith)
  ]
]

In-with_closed :
    (b : ℕ) (o : Option ℕ) (bs : List ℕ) → In b (with_closed o bs) → (o ≡ some b) ⊎ In b bs
In-with_closed b none bs m = inr m
In-with_closed b (some c) bs (inl e) = inl (ap some (sym e))
In-with_closed b (some c) bs (inr m) = inr m

tracked-erase :
    (id : Text) (item : Launched) (a : Apps) (x : Launched)
    → lookup Text-discrete id (erase Text-discrete item.app.id a.launched) ≡ some x
    → (id ≢ item.app.id) × (tracked id a ≡ some x)
tracked-erase id item a x t = ground (arith, lookup-erase Text-discrete id item.app.id a.launched)

-- The monitors hold copies of the entries: an instance with the ID of the tracked one is that one.
abbrev pub IsCopy : Launched → Apps → Type 0
IsCopy item a =
    (current : Launched)
    → tracked item.app.id a ≡ some current
    → current.instance_id ≡ item.instance_id
    → current ≡ item

-- Removing an instance keeps the map sound: in particular no application that is still tracked loses
-- its bridge.
pub remove_launched-IsSound :
    (item : Launched) (a : Apps) → IsSound a → IsCopy item a → IsSound (remove_launched item a)
remove_launched-IsSound item a s copy = elim (remove-cases item a) [
  | inl unchanged ↦ rw unchanged s
  | inr (current, kept, e, removed) ↦
      let is_item = copy current kept e in
      rw removed (record {
        keyed = λ id x t.
            ground (arith, s.keyed id x, lookup-erase Text-discrete id item.app.id a.launched);
        live = λ id x b t h shut.
            let (other, old) = tracked-erase id item a x t in
            elim (In-with_closed b item.bridge a.closed shut) [
              | inl bridge ↦ other (
                  s.own id item.app.id x current b old kept h
                    (ap (λ (l : Launched). l.bridge) is_item ∙ bridge))
              | inr earlier ↦ s.live id x b old h earlier
            ];
        own = λ id j x y b ex ey hx hy. ground (
          arith,
          s.own id j x y b,
          lookup-erase Text-discrete id item.app.id a.launched,
          lookup-erase Text-discrete j item.app.id a.launched,
        );
      })
]
