-- ===== src/Webhook/Owner/Named.antt =====
-- internal/webhook/pod_webhook.go: the deployment of a pod whose ReplicaSet has its name.
use Prim.Native.String.{◌++◌}
use kubera.Base.{◌≡◌, refl, ap, false, none, some, ◌⊎◌, inl, inr, String, List, ◌∷◌, str_eq}
use kubera.Webhook.Owner.{
  OwnerReference, ReplicaSets, deployment_of, owning_deployment, owner_of, resolve,
}
use kubera.Webhook.Owner.Dash.{HasNoDash, before_last_dash-append, fallback-some}

-- The first owner of a pod is a ReplicaSet that is named after its deployment and a hash without a
-- dash. Whether the ReplicaSet can be read, with the deployment as its owner, or not, the pod's
-- deployment is that one.
pub owner_of-owning_deployment :
    (sets : ReplicaSets) (deployment hash : String) (r : OwnerReference) (rs : List OwnerReference)
    → str_eq deployment "" ≡ false
    → HasNoDash hash
    → r ≡ record { kind = "ReplicaSet"; name = deployment ++ "-" ++ hash }
    → (sets r.name ≡ none)
      ⊎ ((owners : List OwnerReference) × (sets r.name ≡ some owners)
          × (deployment_of owners ≡ some deployment))
    → owner_of (owning_deployment sets (r ∷ rs)) ≡ some deployment
unfolding owning_deployment owner_of
owner_of-owning_deployment sets deployment hash r rs h no_dash named read =
    let found : resolve r.name (sets r.name) (owning_deployment sets rs) ≡ some deployment =
      elim read [
        | inl unread ↦
            rw (unread, ap (λ a. a.name) named, before_last_dash-append deployment hash no_dash)
              (fallback-some deployment h)
        | inr (owners, e, owned) ↦ rw (e, owned) refl
      ] in
    rw (ap (λ a. a.kind) named, found, h) refl
