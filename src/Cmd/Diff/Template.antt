-- ===== src/Cmd/Diff/Template.antt =====
-- cmd/kubectl-kubera/main.go: what a line of the table says.
use kubera.Base.{
  ◌≡◌, refl, arith, ◌++◌, Option, none, some, inl, inr, String, List, [], ◌∷◌, Among, str_eq,
  lookup, insert, lookup-insert, if◌then◌else◌,
}
use kubera.Kube.Quantity.{Quantity}
use kubera.Kube.Objects.{ResourceName, ResourceList, or_zero, Container}
use kubera.Api.{ContainerRecommendation}
use kubera.Cmd.Diff.{Row, Reader, current_requests, column, row_of}

pub Among-append_left :
    {A : Type 0} (P : A → Type 0) (xs ys : List A) → Among P xs → Among P (xs ++ ys)
Among-append_left P [] ys h = elim h [ ]
Among-append_left P (x ∷ xs) ys (inl h) = inl h
Among-append_left P (x ∷ xs) ys (inr h) = inr (Among-append_left P xs ys h)

pub Among-append_right :
    {A : Type 0} (P : A → Type 0) (xs ys : List A) → Among P ys → Among P (xs ++ ys)
Among-append_right P [] ys h = h
Among-append_right P (x ∷ xs) ys h = inr (Among-append_right P xs ys h)

abbrev or_else : {A : Type 0} → Option A → Option A → Option A
or_else none b = b
or_else (some a) b = some a

module _ {Q : Type 0} where
  -- The requests of the last container of this name in the template.
  abbrev pub requests_of : String → List (Container Q) → Option (Option (ResourceList Q))
  requests_of name [] = none
  requests_of name (c ∷ cs) =
      or_else (requests_of name cs) (if str_eq c.name name then some c.requests else none)

  lookup-current_requests :
      (name : String) (cs : List (Container Q)) (acc : List (String × Option (ResourceList Q)))
      → lookup name (current_requests cs acc) ≡ or_else (requests_of name cs) (lookup name acc)
  unfolding current_requests
  lookup-current_requests name [] acc = refl
  lookup-current_requests name (c ∷ cs) acc =
      rw
        (
          lookup-current_requests name cs (insert c.name c.requests acc),
          lookup-insert c.name name c.requests acc,
        )
        (ground arith)

  lookup-template :
      (name : String) (cs : List (Container Q))
      → lookup name (current_requests cs []) ≡ requests_of name cs
  lookup-template name cs = rw (lookup-current_requests name cs []) (ground arith)

module _ {Q S : Type 0} ⦃q : Quantity Q⦄ (reader : Reader Q S) where
  -- What the line of a recommended container says, next to a template with these containers.
  abbrev pub Says : String → String → List (Container Q) → ContainerRecommendation Q → Row → Type 0
  Says namespace workload containers c row = row ≡ record {
    namespace = namespace;
    workload = workload;
    container = c.container_name;
    current_cpu = column reader ResourceName.cpu (requests_of c.container_name containers);
    recommended_cpu = reader.print (or_zero c.target.cpu);
    current_memory = column reader ResourceName.memory (requests_of c.container_name containers);
    recommended_memory = reader.print (or_zero c.target.memory);
  }

  pub row_of-Says :
      (namespace workload : String) (containers : List (Container Q))
      (c : ContainerRecommendation Q)
      → Says namespace workload containers c
          (row_of reader namespace workload (current_requests containers []) c)
  row_of-Says namespace workload containers c =
      rw (lookup-template c.container_name containers) refl
