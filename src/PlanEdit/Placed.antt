-- ===== src/PlanEdit/Placed.antt =====
-- Each draft of a patch is added under its placeholder, and no name is without one.
use agentic_software_factory.Prelude.{
  ◌≡◌, ◌⊎◌, inl, inr, refl, ap, sym, ◌∙◌, arith, Bool, true, false, ◌||◌, List, [], ◌∷◌, some,
  eq_of_some, Bool-cases, any-append, ℤ, negsuc, same_int, same_int_refl, Str,
}
use agentic_software_factory.PlanEdit.{
  Task, Draft, PlanMutation, ResolvedTask, has_task, Clients, get, add_task, update_task,
  remove_task, add_dependency, remove_dependency, reorder_task,
}
use agentic_software_factory.PlanEdit.Drafts.{Working, add_draft, add_drafts, placeholders}
use agentic_software_factory.PlanEdit.Calls.{returns, and_then_outcome}
use agentic_software_factory.PlanEdit.Drafts.{added}
use agentic_software_factory.PlanEdit.{check_content}
use agentic_software_factory.Prelude.{str_eq, str_eq→eq, length, str_eq_refl}
use agentic_software_factory.PlanEdit.{insert_client}
use agentic_software_factory.PlanEdit.Accepted.{get-insert_client}

-- The patch adds a draft of the name.
abbrev pub adds : List PlanMutation → Str → Bool
adds [] name = false
adds (add_task draft ∷ mutations) name = str_eq draft.client_id name || adds mutations name
adds (_ ∷ mutations) name = adds mutations name

abbrev pub Has : Clients → Str → Type 0
Has clients name = (p : ℤ) × (get clients name ≡ some p)

pub insert_client-Has :
    (new name : Str) (v : ℤ) (clients : Clients)
    → (str_eq new name ≡ true) ⊎ Has clients name
    → Has (insert_client new v clients) name
insert_client-Has new name v clients h = elim (Bool-cases (str_eq new name)) [
  | inl e ↦ (v, get-insert_client new name v clients ∙ rw e refl)
  | inr e ↦ elim h [
    | inl i ↦ absurd (ground (arith, i, e))
    | inr (p, g) ↦ (p, get-insert_client new name v clients ∙ rw e g)
  ]
]

pub placeholders-Has :
    (mutations : List PlanMutation) (clients : Clients) (name : Str)
    → (adds mutations name ≡ true) ⊎ Has clients name
    → Has (placeholders mutations clients) name
unfolding placeholders
placeholders-Has [] clients name (inl h) = absurd (ground (arith, h))
placeholders-Has [] clients name (inr h) = h
placeholders-Has (add_task draft ∷ mutations) clients name h =
    placeholders-Has mutations _ name (elim h [
      | inr i ↦ inr (insert_client-Has draft.client_id name _ clients (inr i))
      | inl a ↦ elim (Bool-cases (str_eq draft.client_id name)) [
        | inl e ↦ inr (insert_client-Has draft.client_id name _ clients (inl e))
        | inr e ↦ inl (ground (arith, a, e))
      ]
    ])
placeholders-Has (update_task task u ∷ mutations) clients name h =
    placeholders-Has mutations clients name h
placeholders-Has (remove_task task ∷ mutations) clients name h =
    placeholders-Has mutations clients name h
placeholders-Has (add_dependency task d ∷ mutations) clients name h =
    placeholders-Has mutations clients name h
placeholders-Has (remove_dependency task d ∷ mutations) clients name h =
    placeholders-Has mutations clients name h
placeholders-Has (reorder_task task n ∷ mutations) clients name h =
    placeholders-Has mutations clients name h

-- A name that has a placeholder is one that the patch adds.
pub placeholders-adds :
    (mutations : List PlanMutation) (clients : Clients) (name : Str)
    → Has (placeholders mutations clients) name
    → (adds mutations name ≡ true) ⊎ Has clients name
unfolding placeholders
placeholders-adds [] clients name h = inr h
placeholders-adds (add_task draft ∷ mutations) clients name h =
    elim (placeholders-adds mutations _ name h) [
      | inl a ↦ inl (ground (arith, a))
      | inr (p, g) ↦ elim (Bool-cases (str_eq draft.client_id name)) [
        | inl e ↦ inl (ground (arith, e))
        | inr e ↦ inr (
          p,
          rw e at
              (sym (get-insert_client draft.client_id name (negsuc (length clients)) clients) ∙ g),
        )
      ]
    ]
placeholders-adds (update_task task u ∷ mutations) clients name h =
    placeholders-adds mutations clients name h
placeholders-adds (remove_task task ∷ mutations) clients name h =
    placeholders-adds mutations clients name h
placeholders-adds (add_dependency task d ∷ mutations) clients name h =
    placeholders-adds mutations clients name h
placeholders-adds (remove_dependency task d ∷ mutations) clients name h =
    placeholders-adds mutations clients name h
placeholders-adds (reorder_task task n ∷ mutations) clients name h =
    placeholders-adds mutations clients name h

-- The drafts are added, each under its placeholder.
abbrev pub Adds : List Task → Clients → List PlanMutation → Working → Type 0
Adds existing clients mutations w =
    (u : Working) × (add_drafts existing clients mutations w ≡ returns u)
    × ((p : ℤ) → has_task w.tasks p ≡ true → has_task u.tasks p ≡ true)
    × ((name : Str) (p : ℤ)
        → adds mutations name ≡ true
        → get clients name ≡ some p
        → has_task u.tasks p ≡ true)

draft-Adds :
    (existing : List Task) (clients : Clients) (draft : Draft) (w : Working)
    → Has clients draft.client_id
    → (v : Working) × (add_draft existing clients draft w ≡ returns v)
      × ((p : ℤ) → has_task w.tasks p ≡ true → has_task v.tasks p ≡ true)
      × ((p : ℤ) → get clients draft.client_id ≡ some p → has_task v.tasks p ≡ true)
unfolding add_draft check_content
draft-Adds existing clients draft w (p, g) = (
  added existing clients draft p w,
  rw (g, add_draft) refl,
  (λ q h. any-append (λ t. same_int (ResolvedTask.id t) q) w.tasks _ ∙ ground (arith, h)),
  λ q h.
      let same : p ≡ q = eq_of_some (sym g ∙ h) in
      any-append (λ t. same_int (ResolvedTask.id t) q) w.tasks _
      ∙ ground (arith, ap (λ x. same_int x q) same, same_int_refl q),
)

pub drafts-Adds :
    (existing : List Task) (clients : Clients) (mutations : List PlanMutation) (w : Working)
    → ((name : Str) → adds mutations name ≡ true → Has clients name)
    → Adds existing clients mutations w
unfolding add_drafts
drafts-Adds existing clients [] w k = (w, refl, (λ p h. h), λ name p h. absurd (ground (arith, h)))
drafts-Adds existing clients (add_task draft ∷ mutations) w k =
    let (v, run, keep, own) =
      draft-Adds existing clients draft w
        (k draft.client_id (ground (arith, str_eq_refl draft.client_id))) in
    let (u, run', keep', own') =
      drafts-Adds existing clients mutations v (λ name h. k name (ground (arith, h))) in
    (
      u,
      ap (λ o. and_then_outcome o (add_drafts existing clients mutations)) run ∙ run',
      (λ p h. keep' p (keep p h)),
      λ name p h g. elim (Bool-cases (str_eq draft.client_id name)) [
        | inl e ↦ keep' p (own p (ap (get clients) (str_eq→eq draft.client_id name e) ∙ g))
        | inr e ↦ own' name p (ground (arith, h, e)) g
      ],
    )
drafts-Adds existing clients (update_task task u ∷ mutations) w k =
    drafts-Adds existing clients mutations w k
drafts-Adds existing clients (remove_task task ∷ mutations) w k =
    drafts-Adds existing clients mutations w k
drafts-Adds existing clients (add_dependency task d ∷ mutations) w k =
    drafts-Adds existing clients mutations w k
drafts-Adds existing clients (remove_dependency task d ∷ mutations) w k =
    drafts-Adds existing clients mutations w k
drafts-Adds existing clients (reorder_task task n ∷ mutations) w k =
    drafts-Adds existing clients mutations w k
