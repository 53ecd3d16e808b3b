-- ===== src/Mpi/World/Channels.antt =====
-- The messages on a channel over the whole run, and what the ranks' clocks say of them.
use task_bench.Base.{
  ℕ, zero, suc, ◌≡◌, sym, ap, ◌∙◌, ◌+◌, ◌-◌, ◌≤◌, ◌<◌, ◌⊎◌, inl, inr, List, [], ◌∷◌, ◌++◌, arith,
  replicate, Bool-cases, ltb, ltb→lt,
}
use mathlib.Core.List.{append-nil, append_assoc}
use task_bench.Base.Int.{ℤ, pos}
use task_bench.Platform.{Platform}
use task_bench.Graph.{TaskGraph}
use task_bench.Task.{Input}
use task_bench.Mpi.Ranks.{Tables}
use task_bench.Mpi.Rank.Due.{received}
use task_bench.Mpi.Rank.Slots.{payload}

tail_eq : (x y : Input) (a b : List Input) → x ∷ a ≡ y ∷ b → a ≡ b
tail_eq x y a b e = ap tail_or e
  where
    tail_or : List Input → List Input
    tail_or [] = []
    tail_or (z ∷ l) = l

append-cancel : (a b c : List Input) → a ++ b ≡ a ++ c → b ≡ c
append-cancel [] b c e = e
append-cancel (x ∷ a) b c e = append-cancel a b c (tail_eq x x (a ++ b) (a ++ c) e)

second_empty : (a b : List Input) → [] ≡ a ++ b → b ≡ []
second_empty [] b e = sym e
second_empty (x ∷ a) b e = cc

module _ {D : Type 0} ⦃fl : Platform D⦄ (g : TaskGraph D) (n : ℤ) (tables : Tables) (p q : ℤ) where
  -- The messages from `p` to `q` in one timestep, and in those before `m`.
  abbrev pub of_timestep : ℕ → List Input
  of_timestep m = replicate (received g (pos m) n tables p q) (payload g (pos m) p)

  abbrev pub history : ℕ → List Input
  history zero = []
  history (suc m) = history m ++ of_timestep m

  history-extends : (k m : ℕ) → (more : List Input) × (history (m + k) ≡ history m ++ more)
  history-extends zero m = ([], ap history (plus_zero m) ∙ sym (append-nil (history m)))
    where
      plus_zero : (m : ℕ) → m + 0 ≡ m
      plus_zero m = omega arith
  history-extends (suc k) m =
      let (more, e) = history-extends k m in
      (
        more ++ of_timestep (m + k),
        ap history (plus_suc m k)
            ∙ ap (λ l. l ++ of_timestep (m + k)) e
            ∙ append_assoc (history m) more (of_timestep (m + k)),
      )
    where
      plus_suc : (m k : ℕ) → m + suc k ≡ suc (m + k)
      plus_suc m k = omega arith

  history_later : (m m' : ℕ) → m ≤ m' → (more : List Input) × (history m' ≡ history m ++ more)
  history_later m m' h =
      let (k, e) : (k : ℕ) × (m' ≡ m + k) = (m' - m, omega arith) in
      let (more, e') = history-extends k m in (more, ap history e ∙ e')

  -- Of a channel whose sender has sent the messages of the timesteps before `sent_to`, and whose
  -- receiver has taken those before `taken_to`.
  pub channel-ahead :
      (sent_to taken_to : ℕ) (pending : List Input)
      → history sent_to ≡ history taken_to ++ pending
      → taken_to < sent_to
      → (rest : List Input) × (pending ≡ of_timestep taken_to ++ rest)
  channel-ahead sent_to taken_to pending e h =
      let (more, e') = history_later (suc taken_to) sent_to (omega arith) in
      (
        more,
        append-cancel (history taken_to) pending _
            (sym e ∙ e' ∙ append_assoc (history taken_to) (of_timestep taken_to) more),
      )

  pub channel-behind :
      (sent_to taken_to : ℕ) (pending : List Input)
      → history sent_to ≡ history taken_to ++ pending
      → sent_to ≤ taken_to
      → pending ≡ []
  channel-behind sent_to taken_to pending e h =
      let (more, e') = history_later sent_to taken_to h in
      second_empty more pending (
        append-cancel (history sent_to) [] (more ++ pending) (
          append-nil (history sent_to)
          ∙ e
          ∙ ap (λ l. l ++ pending) e'
          ∙ append_assoc (history sent_to) more pending))

  -- All the messages of the receiver's timestep are there, or none is.
  pub channel-cases :
      (sent_to taken_to : ℕ) (pending : List Input)
      → history sent_to ≡ history taken_to ++ pending
      → ((rest : List Input) × (pending ≡ of_timestep taken_to ++ rest)) ⊎ (pending ≡ [])
  channel-cases sent_to taken_to pending e = elim (Bool-cases (ltb taken_to sent_to)) [
    | inl ahead ↦ inl (channel-ahead sent_to taken_to pending e (ltb→lt _ _ ahead))
    | inr behind ↦ inr (channel-behind sent_to taken_to pending e (ground arith))
  ]
