-- ===== src/Controller/Watches/Claimed.antt =====
-- internal/controller/dynamicresource_controller.go: which objects an event reaches.
use kubera.Base.{
  ◌≡◌, refl, Bool, true, false, not, arith, ◌||◌, some, inl, inr, List, [], ◌∷◌, Among, Bool-cases,
  str_eq, map,
}
use kubera.Api.{DynamicResource}
use kubera.Controller.Conflicts.{Selectors, Managed, claims, is_taken, older_than}
use kubera.Controller.Reconcile.{managed_of}
use kubera.Controller.Watches.{request_of, claiming, map_deployment}

either_true : (a b : Bool) → (a || not b) ≡ false → b ≡ true
either_true a b h = ground arith

module _ {Q S P L : Type 0} (sel : Selectors S P L) (labels : L) where
  -- An older object that claims the labels, and that the event's requests have.
  abbrev pub IsReached : Managed S → List (DynamicResource Q S) → Type 0
  IsReached dr items =
      (other : DynamicResource Q S) × (older_than (managed_of other) dr ≡ true)
      × (claims sel (managed_of other) labels ≡ true)
      × Among (λ r. r ≡ request_of other) (map_deployment sel labels (some items))

  IsReached-cons :
      (dr : Managed S) (o : DynamicResource Q S) (os : List (DynamicResource Q S))
      → IsReached dr os
      → IsReached dr (o ∷ os)
  unfolding map_deployment claiming
  IsReached-cons dr o os (other, older, claimed, among) =
      elim (Bool-cases (claims sel (managed_of o) labels)) [
        | inl claim ↦ (other, older, claimed, rw claim (inr among))
        | inr free ↦ (other, older, claimed, rw free among)
      ]

  -- Where an object finds a deployment taken, an event of that deployment also leads to a request
  -- for an older object that claims it.
  pub is_taken-IsReached :
      (dr : Managed S) (items : List (DynamicResource Q S))
      → is_taken sel dr (map managed_of items) labels ≡ true
      → IsReached dr items
  unfolding is_taken map_deployment claiming
  is_taken-IsReached dr [] h = cc
  is_taken-IsReached dr (o ∷ os) h =
      let later : is_taken sel dr (map managed_of os) labels ≡ true → IsReached dr (o ∷ os) =
        λ k. IsReached-cons dr o os (is_taken-IsReached dr os k) in
      elim (Bool-cases (str_eq o.name dr.name || not (older_than (managed_of o) dr))) [
        | inl skipped ↦ later (rw skipped at h)
        | inr older ↦ elim (Bool-cases (claims sel (managed_of o) labels)) [
          | inl claim ↦ (
            o,
            either_true (str_eq o.name dr.name) (older_than (managed_of o) dr) older,
            claim,
            rw claim (inl refl),
          )
          | inr free ↦ later (rw (older, free) at h)
        ]
      ]
