-- ===== src/Provider/Preflight/Transcript.antt =====
-- The tool calls that a transcript makes and the ones that it observes, and how both change when a
-- message joins it or takes the place of another.
use agentframe.Base.{
  ℕ, suc, ◌+◌, String, ◌≡◌, refl, sym, ap, ◌∙◌, Bool, true, false, ◌&&◌, not, none, some, List, [],
  ◌∷◌, ◌++◌, ◌==◌, if◌then◌else◌, length, arith, inl, inr, ◌⊎◌, Bool-cases, eq_iff,
}
use agentframe.Base.Distinct.{member}
use agentframe.Agent.Message.{
  Message, Role, unset, system, user, assistant, tool, is_assistant, is_tool,
}
use agentframe.Provider.Preflight.{add_calls, find_index, replace_at}

and_true : (b : Bool) → (b && true) ≡ b
and_true true = refl
and_true false = refl

tool_is_none_else : (r : Role) → is_tool r ≡ true → is_assistant r ≡ false
tool_is_none_else tool h = refl
tool_is_none_else unset h = cc
tool_is_none_else system h = cc
tool_is_none_else user h = cc
tool_is_none_else assistant h = cc
tool_is_none_else (Role.other s) h = cc

unfoldable pub keys_of : List (String × ℕ) → List String
keys_of [] = []
keys_of ((k, n) ∷ idx) = k ∷ keys_of idx

pub no_index :
    (id : String) (idx : List (String × ℕ))
    → find_index id idx ≡ none
    → member id (keys_of idx) ≡ false
unfolding find_index member keys_of
no_index id [] h = refl
no_index id ((k, n) ∷ idx) h = elim (Bool-cases (k == id)) [
  | inl same ↦ absurd (ground (arith, same, h))
  | inr other ↦ rw other (no_index id idx (ground (arith, other, h)))
]

module _ (trim : String → String) where
  abbrev pub id_of : Message → String
  id_of m = trim m.tool_call_id

  -- what a message adds to the calls, to the observed calls, and to the indices of observations
  abbrev pub with_calls : Message → List String → List String
  with_calls m calls = if is_assistant m.role then add_calls m.tool_calls calls else calls

  abbrev pub with_used : Message → List String → List String
  with_used m used = if is_tool m.role then id_of m ∷ used else used

  abbrev pub with_index : Message → ℕ → List (String × ℕ) → List (String × ℕ)
  with_index m n idx = if is_tool m.role then (id_of m, n) ∷ idx else idx

  -- An observation names a call that was made and not observed yet.
  abbrev pub is_due : Message → List String → List String → Bool
  is_due m calls used =
      if is_tool m.role
      then not (id_of m == "") && member (id_of m) calls && not (member (id_of m) used)
      else true

  -- Each observation of a transcript is due where it stands.
  unfoldable pub is_fed : List String → List String → List Message → Bool
  is_fed calls used [] = true
  is_fed calls used (m ∷ ms) =
      is_due m calls used && is_fed (with_calls m calls) (with_used m used) ms

  unfoldable pub calls_after : List String → List Message → List String
  calls_after calls [] = calls
  calls_after calls (m ∷ ms) = calls_after (with_calls m calls) ms

  unfoldable pub used_after : List String → List Message → List String
  used_after used [] = used
  used_after used (m ∷ ms) = used_after (with_used m used) ms

  unfoldable pub tools_at : ℕ → List (String × ℕ) → List Message → List (String × ℕ)
  tools_at n idx [] = idx
  tools_at n idx (m ∷ ms) = tools_at (suc n) (with_index m n idx) ms

  pub calls-snoc :
      (calls : List String) (xs : List Message) (m : Message)
      → calls_after calls (xs ++ m ∷ []) ≡ with_calls m (calls_after calls xs)
  unfolding calls_after
  calls-snoc calls [] m = refl
  calls-snoc calls (x ∷ xs) m = calls-snoc (with_calls x calls) xs m

  pub tools-snoc :
      (n : ℕ) (idx : List (String × ℕ)) (xs : List Message) (m : Message)
      → tools_at n idx (xs ++ m ∷ []) ≡ with_index m (n + length xs) (tools_at n idx xs)
  unfolding tools_at
  tools-snoc n idx [] m = ap (λ k. with_index m k idx) (omega arith)
  tools-snoc n idx (x ∷ xs) m =
      tools-snoc (suc n) (with_index x n idx) xs m
      ∙ ap (λ k. with_index m k (tools_at (suc n) (with_index x n idx) xs)) (omega arith)

  pub fed-snoc :
      (calls used : List String) (xs : List Message) (m : Message)
      → is_fed calls used (xs ++ m ∷ [])
        ≡ (is_fed calls used xs && is_due m (calls_after calls xs) (used_after used xs))
  unfolding is_fed calls_after used_after
  fed-snoc calls used [] m = and_true (is_due m calls used)
  fed-snoc calls used (x ∷ xs) m =
      let rest = fed-snoc (with_calls x calls) (with_used x used) xs m in
      elim (Bool-cases (is_due x calls used)) [ inl due ↦ rw due rest | inr early ↦ rw early refl ]

  keys-index :
      (m : Message) (n : ℕ) (idx : List (String × ℕ))
      → keys_of (with_index m n idx) ≡ with_used m (keys_of idx)
  unfolding keys_of
  keys-index m n idx = elim (Bool-cases (is_tool m.role)) [
    | inl yes_tool ↦ rw yes_tool refl
    | inr no_tool ↦ rw no_tool refl
  ]

  pub keys-tools :
      (n : ℕ) (idx : List (String × ℕ)) (xs : List Message)
      → used_after (keys_of idx) xs ≡ keys_of (tools_at n idx xs)
  unfolding used_after tools_at
  keys-tools n idx [] = refl
  keys-tools n idx (x ∷ xs) =
      ap (λ u. used_after u xs) (sym (keys-index x n idx))
      ∙ keys-tools (suc n) (with_index x n idx) xs

  -- The observation of a call at a place of the transcript.
  pub data Located (id : String) : ℕ → List Message → Type 0 where
    here :
        {m : Message} {ms : List Message}
        → is_tool m.role ≡ true
        → id_of m ≡ id
        → Located id 0 (m ∷ ms)
    there :
        {j : ℕ} {m : Message} {ms : List Message} → Located id j ms → Located id (suc j) (m ∷ ms)

  pub located :
      (id : String) (n : ℕ) (idx : List (String × ℕ)) (xs : List Message) (i : ℕ)
      → find_index id (tools_at n idx xs) ≡ some i
      → (find_index id idx ≡ some i) ⊎ ((j : ℕ) × (i ≡ n + j) × Located id j xs)
  unfolding tools_at find_index
  located id n idx [] i h = inl h
  located id n idx (m ∷ ms) i h = elim (located id (suc n) (with_index m n idx) ms i h) [
    | inr (j, e, l) ↦ inr (suc j, e ∙ omega arith, there l)
    | inl first ↦ elim (Bool-cases (is_tool m.role)) [
      | inr no_tool ↦
          let p : find_index id (with_index m n idx) ≡ find_index id idx = rw no_tool refl in
          inl (sym p ∙ first)
      | inl yes_tool ↦ elim (Bool-cases (id_of m == id)) [
        | inl same ↦
            let p : find_index id (with_index m n idx) ≡ some n = rw (yes_tool, same) refl in
            inr (0, ground (arith, sym p ∙ first), here yes_tool ((eq_iff (id_of m) id).0 same))
        | inr other ↦
            let p : find_index id (with_index m n idx) ≡ find_index id idx =
              rw (yes_tool, other) refl in
            inl (sym p ∙ first)
      ]
    ]
  ]

  pub calls_observed :
      (m : Message) (calls : List String) → is_tool m.role ≡ true → with_calls m calls ≡ calls
  calls_observed m calls h = rw (tool_is_none_else m.role h) refl

  pub index_observed :
      (m : Message) (n : ℕ) (idx : List (String × ℕ))
      → is_tool m.role ≡ true
      → with_index m n idx ≡ (id_of m, n) ∷ idx
  index_observed m n idx h = rw h refl

  -- One observation of a call in the place of another.
  module _ (id : String) (m : Message) (observed : is_tool m.role ≡ true)
      (named : id_of m ≡ id) where
    pub calls-replace :
        (j : ℕ) (xs : List Message) (calls : List String)
        → Located id j xs
        → calls_after calls (replace_at j m xs) ≡ calls_after calls xs
    unfolding calls_after replace_at
    calls-replace j [] calls l = elim l [ ]
    calls-replace _ (x ∷ xs) calls (here was name) =
        ap (λ c. calls_after c xs)
          (calls_observed m calls observed ∙ sym (calls_observed x calls was))
    calls-replace _ (x ∷ xs) calls (there {j} l) = calls-replace j xs (with_calls x calls) l

    pub tools-replace :
        (j : ℕ) (xs : List Message) (n : ℕ) (idx : List (String × ℕ))
        → Located id j xs
        → tools_at n idx (replace_at j m xs) ≡ tools_at n idx xs
    unfolding tools_at replace_at
    tools-replace j [] n idx l = elim l [ ]
    tools-replace _ (x ∷ xs) n idx (here was name) =
        ap (λ ids. tools_at (suc n) ids xs)
          (index_observed m n idx observed
            ∙ (ap (λ i. (i, n) ∷ idx) (named ∙ sym name) ∙ sym (index_observed x n idx was)))
    tools-replace _ (x ∷ xs) n idx (there {j} l) = tools-replace j xs (suc n) (with_index x n idx) l

    pub fed-replace :
        (j : ℕ) (xs : List Message) (calls used : List String)
        → Located id j xs
        → is_fed calls used (replace_at j m xs) ≡ is_fed calls used xs
    unfolding is_fed replace_at
    fed-replace j [] calls used l = elim l [ ]
    fed-replace _ (x ∷ xs) calls used (here was name) =
        rw
          (
            was,
            observed,
            named,
            name,
            tool_is_none_else x.role was,
            tool_is_none_else m.role observed,
          )
          refl
    fed-replace _ (x ∷ xs) calls used (there {j} l) =
        ap (λ b. is_due x calls used && b)
          (fed-replace j xs (with_calls x calls) (with_used x used) l)
