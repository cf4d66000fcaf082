-- ===== src/Flow/Router/Registry.antt =====
-- `AddInstance`: the router's instances by hostname.
use tinyrange_ad.Common.{none, some, if◌then◌else◌, ◌≡◌, ◌⊎◌, refl, Option-cases, inl, inr}
use tinyrange_ad.Common.Dict.{lookup, insert, bytes_eq, lookup-insert}
use tinyrange_ad.Common.Text.{Bytes, eqb}
use tinyrange_ad.Flow.Router.{FlowInstance, FlowRouter, add_instance}

-- An instance is refused exactly if its hostname is taken; one that is added is found under its
-- hostname from then on, and every other hostname finds what it found before.
pub add_instance_cases :
    (router : FlowRouter) (inst : FlowInstance)
    → (add_instance router inst ≡ none)
        × ((old : FlowInstance) × (lookup inst.hostname router ≡ some old))
      ⊎ (router' : FlowRouter) × (add_instance router inst ≡ some router')
        × (lookup inst.hostname router ≡ none)
        × ((host : Bytes)
            → lookup host router'
              ≡ (if eqb inst.hostname host then some inst else lookup host router))
unfolding add_instance
add_instance_cases router inst = elim (Option-cases (lookup inst.hostname router)) [
  | inl free ↦ inr (
    insert inst.hostname inst router,
    rw (free, add_instance) refl,
    free,
    λ host. lookup-insert inst.hostname host inst router,
  )
  | inr (old, taken) ↦ inl (rw (taken, add_instance) refl, (old, taken))
]
