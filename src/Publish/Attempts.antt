-- ===== src/Publish/Attempts.antt =====
-- What is published when the link does not take every message.
use muondetector_cluster.Prelude.{
  ◌≡◌, refl, subst, sym, ap, ap₂, ◌∙◌, ◌⊎◌, inl, inr, Bool, true, false, List, [], ◌∷◌, ◌++◌, Text,
  All, All-append, Bool-cases,
}
use mathlib.Core.List.{append_assoc}
use muondetector_cluster.State.{ClusterLog}
use muondetector_cluster.Publish.{
  Printers, Publication, publish_until, log_publications, level_publications, publish_cluster_log,
}

-- All were taken; or a first part was, then the next was tried and not taken.
abbrev pub StopsAtRefusal : (Publication → Bool) → List Publication → List Publication → Type 0
StopsAtRefusal takes whole tried =
    ((tried ≡ whole) × All (λ p. takes p ≡ true) whole)
    ⊎ (first rest : List Publication) × (p : Publication) × (whole ≡ first ++ p ∷ rest)
      × (tried ≡ first ++ p ∷ [])
      × All (λ q. takes q ≡ true) first
      × (takes p ≡ false)

abbrev Agrees : (Publication → Bool) → List Publication → List Publication × Bool → Type 0
Agrees takes whole (tried, ok) =
    ((ok ≡ true) × (tried ≡ whole) × All (λ p. takes p ≡ true) whole)
    ⊎ (ok ≡ false)
      × (first rest : List Publication) × (p : Publication) × (whole ≡ first ++ p ∷ rest)
      × (tried ≡ first ++ p ∷ [])
      × All (λ q. takes q ≡ true) first
      × (takes p ≡ false)

publish_until-Agrees :
    (takes : Publication → Bool) (ps : List Publication) → Agrees takes ps (publish_until takes ps)
unfolding publish_until
publish_until-Agrees takes [] = inl (refl, refl, tt)
publish_until-Agrees takes (p ∷ ps) = elim (Bool-cases (takes p)) [
  | inr refused ↦
      let made : publish_until takes (p ∷ ps) ≡ (p ∷ [], false) = rw refused refl in
      subst (Agrees takes (p ∷ ps)) (sym made) (inr (refl, [], ps, p, refl, refl, tt, refused))
  | inl taken ↦
      let rest = publish_until takes ps in
      let made : publish_until takes (p ∷ ps) ≡ (p ∷ rest.0, rest.1) = rw taken refl in
      subst (Agrees takes (p ∷ ps)) (sym made) (elim (publish_until-Agrees takes ps) [
        | inl (ok, same, every) ↦ inl (ok, ap (λ qs. p ∷ qs) same, (taken, every))
        | inr (ok, first, others, q, whole, tried, every, refused) ↦ inr (
          ok,
          p ∷ first,
          others,
          q,
          ap (λ qs. p ∷ qs) whole,
          ap (λ qs. p ∷ qs) tried,
          (taken, every),
          refused,
        )
      ])
]

-- The lines of the cluster's log are published in their order, those of the outgoing events last,
-- up to the first that the link does not take.
pub publish_cluster_log-StopsAtRefusal :
    (pr : Printers) (takes : Publication → Bool) (time : Text) (log : ClusterLog)
    → StopsAtRefusal takes
        (log_publications pr time log ++ level_publications pr time log.outgoing)
        (publish_cluster_log pr takes time log)
unfolding publish_cluster_log
publish_cluster_log-StopsAtRefusal pr takes time log =
    let head = log_publications pr time log in
    let levels = level_publications pr time log.outgoing in
    elim (publish_until-Agrees takes head) [
      | inr (ok, first, rest, q, whole, tried, every, refused) ↦ inr (
        first,
        rest ++ levels,
        q,
        ap (λ ps. ps ++ levels) whole ∙ append_assoc first (q ∷ rest) levels,
        rw ok tried,
        every,
        refused,
      )
      | inl (ok, same, every) ↦ elim (publish_until-Agrees takes levels) [
        | inl (fine, alike, each) ↦ inl (
          rw ok (ap₂ (λ ps qs. ps ++ qs) same alike),
          All-append (λ p. takes p ≡ true) head levels every each,
        )
        | inr (fine, first, rest, q, whole, tried, each, refused) ↦ inr (
          head ++ first,
          rest,
          q,
          ap (λ ps. head ++ ps) whole ∙ sym (append_assoc head first (q ∷ rest)),
          rw ok (ap₂ (λ ps qs. ps ++ qs) same tried ∙ sym (append_assoc head first (q ∷ []))),
          All-append (λ p. takes p ≡ true) head first every each,
          refused,
        )
      ]
    ]
