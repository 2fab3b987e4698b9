-- ===== src/Registry/System.antt =====
-- internal/aml/registry.go as a concurrent system: the registry and the requests that hold entries.
-- A step is what one request does under the lock, or when it opened a store.
use mnemon.Prelude.{ℕ, ◌<◌, ◌≡◌, String, List, [], ◌∷◌, ◌++◌, count, erase}
use mnemon.Prelude.Store.{Ref}
use mnemon.Prelude.Dict.{lookup, Distinct}
use mnemon.Registry.State.{Registry, new_registry}
use mnemon.Registry.Ops.{
  Acquired, refused, found, opens, acquire, open_failed, answer, release, close,
}

-- `opening` are the holds of requests that open their entry, `holds` all others: of a request that
-- waits for the store, or works on it. `closes` are the entries handed over to be closed.
pub record System : Type 0 where
  pub reg : Registry
  pub opening : List Ref
  pub holds : List Ref
  pub closes : List Ref

abbrev pub init : ℕ → System
init limit = record { reg = new_registry limit; opening = []; holds = []; closes = [] }

unfoldable pub sys_acquired : Registry × List Ref × Acquired → System → System
sys_acquired (g, victims, refused) x = record x { reg = g; closes = victims ++ x.closes }
sys_acquired (g, victims, found r) x = record x {
  reg = g;
  closes = victims ++ x.closes;
  holds = r ∷ x.holds;
}
sys_acquired (g, victims, opens r) x = record x {
  reg = g;
  closes = victims ++ x.closes;
  opening = r ∷ x.opening;
}

unfoldable pub sys_answer : Ref → System → System
sys_answer r x = record x { reg = answer r x.reg; opening = erase x.opening r; holds = r ∷ x.holds }

unfoldable pub sys_release : Ref → System → System
sys_release r x = record x {
  reg = (release r x.reg).0;
  holds = erase x.holds r;
  closes = (release r x.reg).1 ++ x.closes;
}

unfoldable pub sys_close : List (String × Ref) → System → System
sys_close order x = record x {
  reg = (close order x.reg).0;
  closes = (close order x.reg).1 ++ x.closes;
}

pub data Step : System → System → Type 0 where
  acquires : (x : System) (key : String) → Step x (sys_acquired (acquire key x.reg) x)
  fails :
      (x : System) (r : Ref)
      → 0 < count r x.opening
      → Step x (record x { reg = open_failed r x.reg })
  answers : (x : System) (r : Ref) → 0 < count r x.opening → Step x (sys_answer r x)
  releases : (x : System) (r : Ref) → 0 < count r x.holds → Step x (sys_release r x)
  closes_all :
      (x : System) (order : List (String × Ref))
      → Distinct order
      → ((key : String) → lookup key order ≡ lookup key x.reg.entries)
      → Step x (sys_close order x)

pub data Reach (x : System) : System → Type 0 where
  here : Reach x x
  later : {y z : System} → Reach x y → Step y z → Reach x z
