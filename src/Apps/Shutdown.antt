-- ===== src/Apps/Shutdown.antt =====
-- What `shutdownLaunchedApplications` kills.
use proxy_for_windows_app.Base.{
  ℕ, ◌≡◌, ◌≢◌, refl, sym, ap, ◌∙◌, ◌⊎◌, inl, inr, Bool, true, false, not, List, [], ◌∷◌, ◌++◌, map,
  Result, arith, if◌then◌else◌, In, Bool-cases, any, keep, is_empty, All,
}
use proxy_for_windows_app.Base.Text.{Text}
use proxy_for_windows_app.Base.Dict.{Dict}
use proxy_for_windows_app.Apps.{
  Launched, NameFunctions, Kill, entries, runs_vscode, root_pids, kills, shutdown,
}

In-append_left : {A : Type 0} (x : A) (xs ys : List A) → In x xs → In x (xs ++ ys)
In-append_left x (y ∷ xs) ys (inl e) = inl e
In-append_left x (y ∷ xs) ys (inr m) = inr (In-append_left x xs ys m)
In-append_left x [] ys m = absurd m

In-append_right : {A : Type 0} (x : A) (xs ys : List A) → In x ys → In x (xs ++ ys)
In-append_right x [] ys m = m
In-append_right x (y ∷ xs) ys m = inr (In-append_right x xs ys m)

In-append : {A : Type 0} (x : A) (xs ys : List A) → In x (xs ++ ys) → In x xs ⊎ In x ys
In-append x [] ys m = inr m
In-append x (y ∷ xs) ys (inl e) = inl (inl e)
In-append x (y ∷ xs) ys (inr m) = elim (In-append x xs ys m) [ inl l ↦ inl (inr l) | inr r ↦ inr r ]

In-map : {A B : Type 0} (f : A → B) (x : A) (xs : List A) → In x xs → In (f x) (map f xs)
In-map f x (y ∷ xs) (inl e) = inl (ap f e)
In-map f x (y ∷ xs) (inr m) = inr (In-map f x xs m)
In-map f x [] m = absurd m

In-first : {A : Type 0} {x : A} (y : A) (ys : List A) → In x (y ∷ ys) → (x ≡ y) ⊎ In x ys
In-first y ys m = m

In-keep :
    {A : Type 0} (p : A → Bool) (x : A) (xs : List A) → In x (keep p xs) → In x xs × (p x ≡ true)
In-keep p x [] m = absurd m
In-keep p x (y ∷ xs) m = elim (Bool-cases (p y)) [
  | inr drop ↦ let (there, h) = In-keep p x xs (rw (drop, keep) at m) in (inr there, h)
  | inl take ↦ elim (In-first y (keep p xs) (rw (take, keep) at m)) [
    | inl e ↦ (inl e, ap p e ∙ take)
    | inr later ↦ let (there, h) = In-keep p x xs later in (inr there, h)
  ]
]

keep-yes :
    {A : Type 0} (p : A → Bool) (y : A) (ys : List A) → p y ≡ true → keep p (y ∷ ys) ≡ y ∷ keep p ys
keep-yes p y ys h = rw (h, keep) refl

keep-no :
    {A : Type 0} (p : A → Bool) (y : A) (ys : List A) → p y ≡ false → keep p (y ∷ ys) ≡ keep p ys
keep-no p y ys h = rw (h, keep) refl

In-keep_intro :
    {A : Type 0} (p : A → Bool) (x : A) (xs : List A) → In x xs → p x ≡ true → In x (keep p xs)
In-keep_intro p x [] m h = absurd m
In-keep_intro p x (y ∷ xs) (inl e) h = rw (keep-yes p y xs (sym (ap p e) ∙ h)) (inl e)
In-keep_intro p x (y ∷ xs) (inr m) h = elim (Bool-cases (p y)) [
  | inr drop ↦ rw (keep-no p y xs drop) (In-keep_intro p x xs m h)
  | inl take ↦ rw (keep-yes p y xs take) (inr (In-keep_intro p x xs m h))
]

kill-In :
    (force : Bool) (k : Kill) (pids : List ℕ)
    → In k (map (λ pid. record { force = force; pid = pid }) pids)
    → (k.force ≡ force) × In k.pid pids
kill-In force k [] m = absurd m
kill-In force k (p ∷ pids) (inl e) =
    (ap (λ (j : Kill). j.force) e, inl (ap (λ (j : Kill). j.pid) e))
kill-In force k (p ∷ pids) (inr m) = let (e, h) = kill-In force k pids m in (e, inr h)

In-nonempty : {A : Type 0} (x : A) (xs : List A) → In x xs → is_empty xs ≡ false
In-nonempty x [] m = absurd m
In-nonempty x (y ∷ xs) m = refl

entries-nonempty : (x : Launched) (t : Dict Text Launched) → In x (entries t) → is_empty t ≡ false
entries-nonempty x [] m = absurd m
entries-nonempty x (e ∷ t) m = refl

polls-nonempty :
    (x : Launched) (polls : List (Dict Text Launched))
    → All (λ t. In x (entries t)) polls
    → any is_empty polls ≡ false
polls-nonempty x [] h = refl
polls-nonempty x (t ∷ polls) (h, hs) =
    ground (arith, entries-nonempty x t h, polls-nonempty x polls hs)

module _ (names : NameFunctions)
    (chromium_pids : Bool → Launched → Result (Unit {0}) (List ℕ)) where
  In-kills :
      (force : Bool) (items : List Launched) (item : Launched) (pid : ℕ)
      → In item items
      → In pid (root_pids names chromium_pids force item)
      → In (record { force = force; pid = pid }) (kills names chromium_pids force items)
  unfolding kills
  In-kills force [] item pid m h = absurd m
  In-kills force (x ∷ items) item pid (inl e) h =
      In-append_left _ _ (kills names chromium_pids force items) (In-map _ pid _ (rw e at h))
  In-kills force (x ∷ items) item pid (inr m) h =
      In-append_right _ (map _ (root_pids names chromium_pids force x)) _
        (In-kills force items item pid m h)

  kills-In :
      (force : Bool) (items : List Launched) (k : Kill)
      → In k (kills names chromium_pids force items)
      → (k.force ≡ force)
        × ((item : Launched) × In item items × In k.pid (root_pids names chromium_pids force item))
  unfolding kills
  kills-In force [] k m = absurd m
  kills-In force (x ∷ items) k m =
      elim (In-append k (map _ (root_pids names chromium_pids force x)) _ m) [
        | inl here ↦
            let (e, h) = kill-In force k (root_pids names chromium_pids force x) here in
            (e, (x, inl refl, h))
        | inr later ↦
            let (e, (item, there, h)) = kills-In force items k later in (e, (item, inr there, h))
      ]

  abbrev plain_entries : Dict Text Launched → List Launched
  plain_entries table = keep (λ item. not (runs_vscode names item)) (entries table)

  not_forced :
      (table : Dict Text Launched) (polls : List (Dict Text Launched)) (last : Dict Text Launched)
      (k : Kill)
      → In k (if any is_empty polls then [] else kills names chromium_pids true (entries last))
      → k.force ≢ false
  not_forced table polls last k m soft = elim (Bool-cases (any is_empty polls)) [
    | inl gone ↦ absurd (rw gone at m)
    | inr waiting ↦
        let (e, found) = kills-In true (entries last) k (rw waiting at m) in ground arith
  ]

  -- The graceful requests go to root processes of tracked applications other than VS Code only.
  pub shutdown-graceful :
      (table : Dict Text Launched) (polls : List (Dict Text Launched)) (last : Dict Text Launched)
      (k : Kill)
      → In k (shutdown names chromium_pids table polls last)
      → k.force ≡ false
      → (item : Launched) × In item (entries table)
        × (runs_vscode names item ≡ false)
        × In k.pid (root_pids names chromium_pids false item)
  unfolding shutdown
  shutdown-graceful table polls last k m soft = elim (Bool-cases (is_empty (plain_entries table))) [
    | inl idle ↦ absurd (rw idle at m)
    | inr busy ↦
        elim (In-append k (kills names chromium_pids false (plain_entries table)) _
          (rw busy at m)) [
            | inl asked ↦
                let (e, (item, there, h)) = kills-In false (plain_entries table) k asked in
                let (tracked, plain) = In-keep _ item (entries table) there in
                (item, tracked, ground arith, h)
            | inr forced ↦ absurd (not_forced table polls last k forced soft)
          ]
  ]

  -- VS Code is force-closed although the function sets out to leave it running: if an instance of VS
  -- Code stays tracked through every poll and to the end, while at first an application other than VS
  -- Code is tracked too, then each root process of that instance is killed by force.
  pub shutdown-forces_vscode :
      (table : Dict Text Launched) (polls : List (Dict Text Launched)) (last : Dict Text Launched)
      (other code : Launched) (pid : ℕ)
      → In other (entries table)
      → runs_vscode names other ≡ false
      → runs_vscode names code ≡ true
      → All (λ t. In code (entries t)) polls
      → In code (entries last)
      → In pid (root_pids names chromium_pids true code)
      → In (record { force = true; pid = pid }) (shutdown names chromium_pids table polls last)
  unfolding shutdown
  shutdown-forces_vscode table polls last other code pid there plain vscode stays kept root =
      let first =
        In-nonempty other (plain_entries table)
          (In-keep_intro _ other (entries table) there (ap not plain)) in
      rw first (
        rw (polls-nonempty code polls stays) (
          In-append_right _ (kills names chromium_pids false (plain_entries table)) _
            (In-kills true (entries last) code pid kept root)))
