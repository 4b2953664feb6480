-- ===== src/Coordinator/Actions.antt =====
-- What becomes of the action of a split or a merge: it is finished or failed.
use true_now.Base.{
  ℕ, ◌+◌, ◌-◌, ◌≡◌, refl, ◌∙◌, ap, max, Option, none, some, List, [], ◌∷◌, ◌++◌, arith,
  if◌then◌else◌, ltb, length, length-append, latest, ◌==◌, Bool-cases, inl, inr,
}
use true_now.Base.Word.{Word}
use true_now.Base.Map.{lookup, insert, delete, lookup-insert, lookup-delete}
use true_now.Coordinator.{
  ShardCoordinator, RebalanceAction, ActionId, Err, completed, failed, id_eq,
}
use true_now.Coordinator.Split.{start_action, fail_action, keep_last_100}

-- The action as it stands when it is finished at a time, and when it has failed with an error.
abbrev pub finished : Word → RebalanceAction → RebalanceAction
finished now action = record action { status = completed; completed_at = some now }

abbrev pub broken : Err → RebalanceAction → RebalanceAction
broken err action = record action { status = failed; error = some err }

-- The active actions are those of before, but for the one with this identifier.
abbrev pub HasActive :
    ActionId → Option RebalanceAction → ShardCoordinator → ShardCoordinator → Type 0
HasActive id found c c' =
    (k : ActionId)
    → lookup k c'.active_actions ≡ (if id == k then found else lookup k c.active_actions)

-- Of the coordinator nothing has changed but the action, which is active and failed.
pub record HasFailed (action : RebalanceAction) (err : Err) (c c' : ShardCoordinator) : Type 0 where
  pub rest_kept : c' ≡ record c { active_actions = c'.active_actions }
  pub kept_active : HasActive action.id (some (broken err action)) c c'

pub fail_action-HasFailed :
    (now : ℕ → Word) (action : RebalanceAction) (err : Err) (c : ShardCoordinator)
    → HasFailed action err c (fail_action action err (start_action now action c))
unfolding fail_action start_action
fail_action-HasFailed now action err c = record {
  rest_kept = refl;
  kept_active = λ k. elim (Bool-cases (action.id == k)) [
    | inl t ↦
        lookup-insert action.id k (broken err action) (insert action.id action c.active_actions)
        ∙ rw t refl
    | inr f ↦
        lookup-insert action.id k (broken err action) (insert action.id action c.active_actions)
        ∙ rw f (lookup-insert action.id k action c.active_actions ∙ rw f refl)
  ];
}

pub delete-HasActive :
    (action : RebalanceAction) (c c' : ShardCoordinator)
    → c'.active_actions ≡ delete action.id (insert action.id action c.active_actions)
    → HasActive action.id none c c'
delete-HasActive action c c' e k = elim (Bool-cases (action.id == k)) [
  | inl t ↦
      ap (lookup k) e
      ∙ lookup-delete action.id k (insert action.id action c.active_actions)
      ∙ rw t refl
  | inr f ↦
      ap (lookup k) e
      ∙ lookup-delete action.id k (insert action.id action c.active_actions)
      ∙ rw f (lookup-insert action.id k action c.active_actions ∙ rw f refl)
]

-- A history with one more action is cut to its latest 100, or to the length it had if it was longer.
pub keep_last_100-latest :
    (history : List RebalanceAction) (action : RebalanceAction)
    → keep_last_100 (history ++ (action ∷ []))
      ≡ latest (max 100 (length history)) (history ++ (action ∷ []))
unfolding keep_last_100
keep_last_100-latest history action =
    let longer = history ++ (action ∷ []) in
    let n : length longer ≡ length history + 1 = length-append history (action ∷ []) in
    elim (Bool-cases (ltb 100 (length longer))) [
      | inl t ↦
          let out : length longer - max 100 (length history) ≡ 1 = ground (arith, t, n) in
          rw (t, keep_last_100, out) refl
      | inr f ↦
          let out : length longer - max 100 (length history) ≡ 0 = ground (arith, f, n) in
          rw (f, keep_last_100, out) refl
    ]
