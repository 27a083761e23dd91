-- ===== src/Query/Path/Defaults.antt =====
-- src/rpc_query.c: where rpc_query_get gives the default value.
use librpc.Base.{◌≡◌, refl, Option, none, some, List, [], ◌∷◌, ◌++◌, Bytes}
use librpc.Object.Types.{Object}
use librpc.Query.Text.{strtok}
use librpc.Query.Path.{Step, child, refused, get_step, get_loop, query_get}

-- A read of the last token: the default stands for a missing child.
abbrev pub last_read : Object → Bytes → Option Object → Option Object
last_read container token default_val = elim (get_step (some container) token) [
  | refused ↦ none
  | child none ↦ default_val
  | child (some leaf) ↦ some leaf
]

abbrev last_of : Option Object → Bytes → Option Object → Option Object
last_of none token default_val = none
last_of (some container) token default_val = last_read container token default_val

last_step :
    (s : Step) (d : Option Object)
    → (elim s [ refused ↦ none | child n ↦ get_loop n [] d ])
      ≡ (elim s [ refused ↦ none | child none ↦ d | child (some leaf) ↦ some leaf ])
unfolding get_loop
last_step refused d = refl
last_step (child none) d = refl
last_step (child (some leaf)) d = refl

one_token :
    (o : Option Object) (token : Bytes) (d : Option Object)
    → get_loop o (token ∷ []) d ≡ last_of o token d
one_token none token d = unfold get_loop get_step in refl
one_token (some o) token d = unfold get_loop in last_step (get_step (some o) token) d

-- A step below which a token more is read.
step_snoc :
    (s : Step) (ts : List Bytes) (token : Bytes) (d : Option Object)
    → ((o : Option Object) → get_loop o (ts ++ token ∷ []) d ≡ last_of (get_loop o ts none) token d)
    → (elim s [ refused ↦ none | child n ↦ get_loop n (ts ++ token ∷ []) d ])
      ≡ last_of (elim s [ refused ↦ none | child n ↦ get_loop n ts none ]) token d
step_snoc refused ts token d h = refl
step_snoc (child n) ts token d h = h n

get_loop-snoc :
    (o : Option Object) (ts : List Bytes) (token : Bytes) (d : Option Object)
    → get_loop o (ts ++ token ∷ []) d ≡ last_of (get_loop o ts none) token d
unfolding get_loop
get_loop-snoc none [] token d = one_token none token d
get_loop-snoc (some o) [] token d = one_token (some o) token d
get_loop-snoc o (t ∷ ts) token d =
    step_snoc (get_step o t) ts token d (λ (n : Option Object). get_loop-snoc n ts token d)

last_of_lem :
    (o : Option Object) (token : Bytes) (d : Option Object)
    → last_of o token d ≡ (elim o [ none ↦ none | some container ↦ last_read container token d ])
last_of_lem none token d = refl
last_of_lem (some o) token d = refl

-- rpc_query_get reads the last token in what the tokens before it lead to, and the default value stands
-- for a child that this container lacks. Where they lead nowhere it gives NULL, whatever the default.
pub query_get-last :
    (o : Object) (path : Bytes) (ts : List Bytes) (token : Bytes) (d : Option Object)
    → strtok path ≡ ts ++ token ∷ []
    → query_get (some o) (some path) d ≡ (elim (get_loop (some o) ts none) [
      | none ↦ none
      | some container ↦ last_read container token d
    ])
unfolding query_get
query_get-last o path ts token d e =
    rw (e, get_loop-snoc (some o) ts token d) (last_of_lem (get_loop (some o) ts none) token d)
