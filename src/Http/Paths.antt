-- ===== src/Http/Paths.antt =====
-- src/peer_http.cpp: the test of a path against what its elements lead to.
use mathlib.Core.Option.{some_inj}
use mathlib.Core.Bool.{true≢false}
use mathlib.Core.Path.{subst}
use xixi.Prelude.{
  ℕ, suc, ◌≡◌, refl, sym, ap, ◌∙◌, ◌⊎◌, inl, inr, Bool, true, false, Option, none, some, List, [],
  ◌∷◌, ◌++◌, arith, Bool-cases, length, bytes_eq, codes,
}
use xixi.Http.Files.{
  Got, key_bytes, look_up, or_file, get_cache_item, count_by, next_count, while_below, stays_below,
}
use xixi.Http.State.{Env, PeerHttp, PathKind}
use xixi.Util.Text.{c_string}

-- A directory is the list of its elements, the last one first.
abbrev pub Directory : Type 0
Directory = List (List ℕ)

abbrev parent : Directory → Directory
parent [] = []
parent (element ∷ dir) = dir

abbrev enter_by : (is_parent is_self : Bool) → List ℕ → Directory → Directory
enter_by true is_self element dir = parent dir
enter_by false true element dir = dir
enter_by false false element dir = element ∷ dir

-- What an element of a path leads to.
unfoldable pub enter : Directory → List ℕ → Directory
unfolding bytes_eq
enter dir element =
    enter_by (bytes_eq element (codes "..")) (bytes_eq element (codes ".")) element dir

abbrev pub IsBelow : Directory → Directory → Type 0
IsBelow base dir = (inner : Directory) × (dir ≡ inner ++ base)

-- Each directory on the way along the elements is the base, or below it.
pub Remains : Directory → Directory → List (List ℕ) → Type 0
unfolding enter
Remains base dir [] = IsBelow base dir
Remains base dir (element ∷ elements) = IsBelow base dir × Remains base (enter dir element) elements

abbrev Entered : Directory → ℕ → Directory → Type 0
Entered base path_count dir =
    (inner : Directory) × ((dir ≡ inner ++ base) × (path_count ≡ suc (length inner)))

count_by-enter_by :
    (is_parent is_self : Bool) (base inner : Directory) (element : List ℕ) (path_count : ℕ)
    → count_by is_parent is_self (suc (length inner)) ≡ some path_count
    → Entered base path_count (enter_by is_parent is_self element (inner ++ base))
count_by-enter_by true is_self base [] element path_count h = absurd (ground (arith, h))
count_by-enter_by true is_self base (x ∷ inner) element path_count h =
    (inner, (refl, ground (arith, h)))
count_by-enter_by false true base inner element path_count h = (inner, (refl, sym (some_inj.0 h)))
count_by-enter_by false false base inner element path_count h =
    (element ∷ inner, (refl, omega (arith, some_inj.0 h)))

entered :
    (base inner dir : Directory) (path_count n : ℕ) (element : List ℕ)
    → dir ≡ inner ++ base
    → path_count ≡ suc (length inner)
    → next_count path_count element ≡ some n
    → Entered base n (enter dir element)
unfolding next_count enter
entered base inner dir path_count n element at counted h =
    subst (λ d. Entered base n (enter d element)) (sym at)
      (count_by-enter_by (bytes_eq element (codes "..")) (bytes_eq element (codes ".")) base inner
        element n (subst (λ k. next_count k element ≡ some n) counted h))

after_element :
    (base inner dir : Directory) (path_count : ℕ) (element : List ℕ) (elements : List (List ℕ))
    → dir ≡ inner ++ base
    → path_count ≡ suc (length inner)
    → (o : Option ℕ) → next_count path_count element ≡ o
    → while_below o (λ n. stays_below n elements) ≡ true
    → ((n : ℕ)
        → Entered base n (enter dir element)
        → stays_below n elements ≡ true
        → Remains base (enter dir element) elements)
    → Remains base (enter dir element) elements
after_element base inner dir path_count element elements at counted none e g rest =
    absurd (true≢false (sym g))
after_element base inner dir path_count element elements at counted (some n) e g rest =
    rest n (entered base inner dir path_count n element at counted e) g

remains :
    (elements : List (List ℕ)) (base dir : Directory) (path_count : ℕ)
    → Entered base path_count dir
    → stays_below path_count elements ≡ true
    → Remains base dir elements
unfolding Remains stays_below next_count
remains [] base dir path_count (inner, (at, counted)) h = (inner, at)
remains (element ∷ elements) base dir path_count (inner, (at, counted)) h = (
  (inner, at),
  after_element base inner dir path_count element elements at counted
      (next_count path_count element) refl h
      (λ n e g. remains elements base (enter dir element) n e g),
)

from_root :
    (elements : List (List ℕ))
    → stays_below 0 (codes "/" ∷ elements) ≡ true
    → stays_below 1 elements ≡ true
unfolding stays_below next_count bytes_eq
from_root elements h = h

-- A path from the root that passes the test never leaves the directory that stands for the root.
stays_below-Remains :
    (base : Directory) (elements : List (List ℕ))
    → stays_below 0 (codes "/" ∷ elements) ≡ true
    → Remains base base elements
stays_below-Remains base elements h =
    remains elements base base 1 ([], (refl, refl)) (from_root elements h)

-- The same environment with other files.
abbrev pub with_files : (List ℕ → PathKind) → (List ℕ → Option (List ℕ)) → Env → Env
with_files path_kind file_bytes env = record env { path_kind = path_kind; file_bytes = file_bytes }

-- The files are not asked: whatever files there are, the lookup has the same result.
abbrev pub IsBlind : Env → Bool → PeerHttp → Type 0
IsBlind env is_base p =
    (path_kind : List ℕ → PathKind) (file_bytes : List ℕ → Option (List ℕ))
    → get_cache_item (with_files path_kind file_bytes env) is_base p ≡ get_cache_item env is_base p

look_up_key :
    (is_base : Bool) (bytes : List ℕ) (p : PeerHttp) → (look_up is_base bytes p).3.key ≡ p.key
unfolding look_up
look_up_key is_base bytes p = elim (Bool-cases p.touch_flag) [
  | inl t ↦ rw t refl
  | inr f ↦ rw f refl
]

-- What the files answer matters only behind the test.
blind :
    (env : Env) (path_kind : List ℕ → PathKind) (file_bytes : List ℕ → Option (List ℕ))
    (is_base : Bool) (g : Got)
    → stays_below 0 (env.path_elements (c_string g.3.key)) ≡ false
    → or_file (with_files path_kind file_bytes env) is_base g ≡ or_file env is_base g
unfolding or_file
blind env path_kind file_bytes is_base (some a, reason, expiration, p) h = refl
blind env path_kind file_bytes is_base (none, reason, expiration, p) h = simp h

-- Where the elements of a key are "/" and others after it, either each directory along the others, from the directory
-- that stands for the root on, is that directory or below it, or the lookup does not ask the files at all. (A key that
-- starts with two slashes has another first element.)
pub get_cache_item-Remains :
    (env : Env) (is_base : Bool) (p : PeerHttp) (base : Directory) (elements : List (List ℕ))
    → env.path_elements (c_string p.key) ≡ codes "/" ∷ elements
    → Remains base base elements ⊎ IsBlind env is_base p
unfolding get_cache_item
get_cache_item-Remains env is_base p base elements e =
    elim (Bool-cases (stays_below 0 (codes "/" ∷ elements))) [
      | inl t ↦ inl (stays_below-Remains base elements t)
      | inr f ↦ inr λ path_kind file_bytes.
          let g = look_up is_base (key_bytes p) p in
          let at : env.path_elements (c_string g.3.key) ≡ codes "/" ∷ elements =
            ap (λ key. env.path_elements (c_string key)) (look_up_key is_base (key_bytes p) p)
            ∙ e in
          blind env path_kind file_bytes is_base g (ap (λ l. stays_below 0 l) at ∙ f)
    ]
