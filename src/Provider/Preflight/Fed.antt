-- ===== src/Provider/Preflight/Fed.antt =====
-- What a provider takes: each observation of a tool call comes after a message of the assistant that
-- makes the call, and no call has two.
use agentframe.Base.{
  ℕ, String, ◌≡◌, refl, sym, ap, subst, ◌∙◌, true, false, ◌&&◌, Option, none, some, List, [], ◌∷◌,
  ◌==◌, length, arith, inl, inr, Bool-cases,
}
use agentframe.Base.Distinct.{member}
use agentframe.Agent.Message.{
  Message, Role, unset, system, user, assistant, tool, is_assistant, is_tool, clone_message,
}
use agentframe.Agent.Errors.{GoError}
use agentframe.Provider.Preflight.{
  Progress, Round, taken, rejected, on_round, add_calls, find_index, replace_at, append_message,
  place, take_tool_message, take_by_role, normalize_from, normalize_messages_for_provider,
}
use agentframe.Provider.Preflight.Transcript.{
  id_of, with_calls, with_index, is_due, is_fed, calls_after, used_after, tools_at, calls-snoc,
  tools-snoc, fed-snoc, keys_of, keys-tools, no_index, Located, located, calls_observed,
  index_observed, calls-replace, tools-replace, fed-replace,
}

module _ (trim : String → String) where
  -- What the loop knows of the messages that it has kept.
  record Sound (s : Progress) : Type 0 where
    calls_known : s.calls ≡ calls_after trim [] s.normalized
    indices_known : s.indices ≡ tools_at trim 0 [] s.normalized
    fed : is_fed trim [] [] s.normalized ≡ true

  -- A message at the end, when it is due.
  append-Sound :
      (m : Message) (s : Progress)
      → is_due trim m s.calls (keys_of s.indices) ≡ true
      → Sound s
      → Sound (record (append_message m s) {
        calls = with_calls trim m s.calls;
        indices = with_index trim m (length s.normalized) s.indices;
      })
  unfolding append_message keys_of
  append-Sound m s due k =
      let xs = s.normalized in
      let used : keys_of s.indices ≡ used_after trim [] xs =
        ap keys_of k.indices_known ∙ sym (keys-tools trim 0 [] xs) in
      let due_here : is_due trim m (calls_after trim [] xs) (used_after trim [] xs) ≡ true =
        ap (λ c. is_due trim m c (used_after trim [] xs)) (sym k.calls_known)
        ∙ (ap (is_due trim m s.calls) (sym used) ∙ due) in
      record {
        calls_known = ap (with_calls trim m) k.calls_known ∙ sym (calls-snoc trim [] xs m);
        indices_known =
            ap (with_index trim m (length xs)) k.indices_known
            ∙ (ap (λ n. with_index trim m n (tools_at trim 0 [] xs)) (omega arith)
                ∙ sym (tools-snoc trim 0 [] xs m));
        fed =
            fed-snoc trim [] [] xs m
            ∙ (ap (λ b. b && is_due trim m (calls_after trim [] xs) (used_after trim [] xs)) k.fed
                ∙ due_here);
      }

  appended-Sound :
      (m : Message) (s : Progress) (calls : List String) (idx : List (String × ℕ))
      → with_calls trim m s.calls ≡ calls
      → with_index trim m (length s.normalized) s.indices ≡ idx
      → is_due trim m s.calls (keys_of s.indices) ≡ true
      → Sound s
      → Sound (record (append_message m s) { calls = calls; indices = idx })
  appended-Sound m s calls idx p q due k =
      subst (λ c. Sound (record (append_message m s) { calls = c; indices = idx })) p
        (subst
          (λ i.
            Sound (record (append_message m s) { calls = with_calls trim m s.calls; indices = i }))
          q (append-Sound m s due k))

  plain-Sound :
      (m : Message) (s : Progress)
      → is_tool m.role ≡ false
      → is_assistant m.role ≡ false
      → Sound s
      → Sound (append_message m s)
  unfolding append_message
  plain-Sound m s no_tool no_assistant k =
      appended-Sound m s s.calls s.indices (rw no_assistant refl) (rw no_tool refl)
        (rw no_tool refl) k

  replace-Sound :
      (j : ℕ) (id : String) (m : Message) (s : Progress)
      → is_tool m.role ≡ true
      → id_of trim m ≡ id
      → Located trim id j s.normalized
      → Sound s
      → Sound (record s { normalized = replace_at j m s.normalized })
  replace-Sound j id m s observed named l k =
      let xs = s.normalized in
      record {
        calls_known = k.calls_known ∙ sym (calls-replace trim id m observed named j xs [] l);
        indices_known = k.indices_known ∙ sym (tools-replace trim id m observed named j xs 0 [] l);
        fed = fed-replace trim id m observed named j xs [] [] l ∙ k.fed;
      }

  -- What a round that is not rejected knows.
  data SoundRound : Round → Type 0 where
    sound : {s : Progress} → Sound s → SoundRound (taken s)
    failed : (e : GoError) → SoundRound (rejected e)

  place-Sound :
      (o : Option ℕ) (m : Message) (s : Progress)
      → is_tool m.role ≡ true
      → (id_of trim m == "") ≡ false
      → member (id_of trim m) s.calls ≡ true
      → find_index (id_of trim m) s.indices ≡ o
      → Sound s
      → Sound (place o (id_of trim m) m s)
  unfolding place append_message find_index
  place-Sound (some i) m s observed full made found k =
      elim (located trim (id_of trim m) 0 [] s.normalized i
        (ap (find_index (id_of trim m)) (sym k.indices_known) ∙ found)) [
          | inl none_yet ↦ absurd (ground (arith, none_yet))
          | inr (j, e, l) ↦
              subst (λ n. Sound (record s { normalized = replace_at n m s.normalized }))
                (omega (arith, e)) (replace-Sound j (id_of trim m) m s observed refl l k)
        ]
  place-Sound none m s observed full made found k =
      let unused : member (id_of trim m) (keys_of s.indices) ≡ false =
        no_index (id_of trim m) s.indices found in
      appended-Sound m s s.calls ((id_of trim m, length s.normalized) ∷ s.indices)
        (calls_observed trim m s.calls observed) (index_observed trim m _ s.indices observed)
        (rw (observed, full, made, unused) refl) k

  tool-Sound :
      (m : Message) (s : Progress)
      → is_tool m.role ≡ true
      → Sound s
      → SoundRound (take_tool_message (id_of trim m) m s)
  unfolding take_tool_message
  tool-Sound m s observed k = elim (Bool-cases (id_of trim m == "")) [
    | inl blank ↦ rw blank (failed _)
    | inr full ↦ elim (Bool-cases (member (id_of trim m) s.calls)) [
      | inr stray ↦ rw (full, stray) (failed _)
      | inl made ↦
          rw (full, made)
            (sound
              (place-Sound (find_index (id_of trim m) s.indices) m s observed full made refl k))
    ]
  ]

  take_by_role-Sound :
      (r : Role) (m : Message) (s : Progress)
      → m.role ≡ r
      → Sound s
      → SoundRound (take_by_role trim r m s)
  unfolding take_by_role append_message
  take_by_role-Sound assistant m s e k = sound (
      appended-Sound m s (add_calls m.tool_calls s.calls) s.indices (rw e refl) (rw e refl)
        (rw e refl) k)
  take_by_role-Sound tool m s e k = tool-Sound m s (rw e refl) k
  take_by_role-Sound unset m s e k = sound (plain-Sound m s (rw e refl) (rw e refl) k)
  take_by_role-Sound system m s e k = sound (plain-Sound m s (rw e refl) (rw e refl) k)
  take_by_role-Sound user m s e k = sound (plain-Sound m s (rw e refl) (rw e refl) k)
  take_by_role-Sound (Role.other t) m s e k = sound (plain-Sound m s (rw e refl) (rw e refl) k)

  -- Every transcript that the rounds end with is fed.
  data FedOutput : List Message × Option GoError → Type 0 where
    refused : (e : GoError) → FedOutput ([], some e)
    accepted : {ms : List Message} → is_fed trim [] [] ms ≡ true → FedOutput (ms, none)

  on_round-Fed :
      (x : Round) (k : Progress → List Message × Option GoError)
      → SoundRound x
      → ((s : Progress) → Sound s → FedOutput (k s))
      → FedOutput (on_round x k)
  on_round-Fed (taken s) k (sound h) f = f s h
  on_round-Fed (rejected e) k (failed _) f = refused e

  normalize_from-Fed :
      (ms : List Message) (s : Progress) → Sound s → FedOutput (normalize_from trim ms s)
  unfolding normalize_from
  normalize_from-Fed [] s k = accepted k.fed
  normalize_from-Fed (m ∷ ms) s k =
      on_round-Fed _ _ (take_by_role-Sound (clone_message m).role (clone_message m) s refl k)
        (λ t h. normalize_from-Fed ms t h)

  empty-Sound : Sound (record { normalized = []; calls = []; indices = [] })
  unfolding calls_after tools_at is_fed
  empty-Sound = record { calls_known = refl; indices_known = refl; fed = refl }

  fed_output :
      {x : List Message × Option GoError} → FedOutput x → x.1 ≡ none → is_fed trim [] [] x.0 ≡ true
  fed_output (accepted h) e = h
  fed_output (refused x) e = cc

  -- In the transcript that the preflight gives to a provider, each tool message has a tool call
  -- ID that an earlier message of the assistant calls for, and no two have the same, with the
  -- blanks around the IDs of tool messages left aside.
  pub normalize_messages-fed :
      (messages out : List Message)
      → normalize_messages_for_provider trim messages ≡ (out, none)
      → is_fed trim [] [] out ≡ true
  unfolding normalize_messages_for_provider
  normalize_messages-fed messages out h =
      ap (λ x. is_fed trim [] [] x.0) (sym h)
      ∙ fed_output (normalize_from-Fed messages _ empty-Sound) (ap (λ x. x.1) h)
