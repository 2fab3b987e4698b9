-- ===== src/Registry/State.antt =====
-- internal/aml/registry.go, lines 31-84: the open stores of the users and the registry of them. An
-- entry is a shared object: the map and the LRU list hold references to it. Of an entry's store,
-- agent and runtime the registry reads only whether they opened: `ready` and `err`.
use mnemon.Prelude.{ℕ, String, Bool, false, List, [], ◌∷◌, ◌++◌}
use mnemon.Prelude.Store.{Ref}

-- userEntry; its place in the list (`elem`) is where its reference stands in `lru`.
pub record UserEntry : Type 0 where
  pub key : String
  pub ready : Bool
  pub err : Bool
  pub refs : ℕ
  pub evicted : Bool
  pub closed : Bool

-- registry; `heap` and `next_ref` are the memory its entries stand in, the front of `lru` is the
-- most recently used.
pub record Registry : Type 0 where
  pub limit : ℕ
  pub heap : Ref → UserEntry
  pub next_ref : Ref
  pub entries : List (String × Ref)
  pub lru : List Ref
  pub closing : Bool

abbrev pub blank_entry : UserEntry
blank_entry = record {
  key = "";
  ready = false;
  err = false;
  refs = 0;
  evicted = false;
  closed = false;
}

-- The entry that a miss makes, held by the request that opens it.
abbrev pub new_entry : String → UserEntry
new_entry k = record blank_entry { key = k; refs = 1 }

abbrev pub new_registry : ℕ → Registry
new_registry n = record {
  limit = n;
  heap = λ r. blank_entry;
  next_ref = 0;
  entries = [];
  lru = [];
  closing = false;
}

-- The list from its back.
abbrev pub backwards : List Ref → List Ref
backwards [] = []
backwards (r ∷ rs) = backwards rs ++ (r ∷ [])
