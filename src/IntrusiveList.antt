-- ===== src/IntrusiveList.antt =====
-- src/xixi_list.hpp: the doubly linked list whose links stand in the nodes. A node is its address;
-- `next` and `prev` are the links of all nodes for one INDEX, and none is the null pointer.
-- A dereference of null, which the asserts exclude, changes nothing here.
pub mod Segments
pub mod Refines
pub mod Removes
use xixi.Prelude.{
  ℕ, ◌+◌, ◌-◌, ◌%◌, ◌^◌, Bool, true, false, not, ◌&&◌, ◌||◌, Option, none, some, ◌==◌,
  if◌then◌else◌, update,
}

pub record Links : Type 0 where
  pub next : ℕ → Option ℕ
  pub prev : ℕ → Option ℕ
  pub head : Option ℕ
  pub tail : Option ℕ
  pub size : ℕ

unfoldable pub is_null : Option ℕ → Bool
is_null none = true
is_null (some a) = false

unfoldable pub same : Option ℕ → Option ℕ → Bool
same none none = true
same none (some b) = false
same (some a) none = false
same (some a) (some b) = a == b

-- `p->next_[INDEX] = v` and `p->prev_[INDEX] = v`
unfoldable pub set_next : Option ℕ → Option ℕ → Links → Links
set_next none v l = l
set_next (some p) v l = record l { next = update l.next p v }

unfoldable pub set_prev : Option ℕ → Option ℕ → Links → Links
set_prev none v l = l
set_prev (some p) v l = record l { prev = update l.prev p v }

unfoldable pub is_linked : Links → ℕ → Bool
is_linked l p =
    not (is_null (l.next p))
    || not (is_null (l.prev p))
    || same (some p) l.head && same (some p) l.tail

unfoldable pub push_front : ℕ → Links → Links
unfolding set_next set_prev is_null
push_front p l =
    let l1 = set_prev l.head (some p) l in
    let l2 = set_prev (some p) none l1 in
    let l3 = set_next (some p) l.head l2 in
    record l3 {
      head = some p;
      tail = if is_null l.tail then some p else l.tail;
      size = (l.size + 1) % 2 ^ 32;
    }

unfoldable pub push_back : ℕ → Links → Links
unfolding set_next set_prev is_null
push_back p l =
    let l1 = set_next l.tail (some p) l in
    let l2 = set_next (some p) none l1 in
    let l3 = set_prev (some p) l.tail l2 in
    record l3 {
      tail = some p;
      head = if is_null l.head then some p else l.head;
      size = (l.size + 1) % 2 ^ 32;
    }

unfoldable pub pop_front : Links → Option ℕ × Links
unfolding set_next set_prev same
pop_front l = elim l.head [
  | none ↦ (none, l)
  | some p ↦
      let head = l.next p in
      let l1 = set_prev head none l in
      (
        some p,
        set_next (some p) none (record l1 {
          head = head;
          tail = if same l.tail (some p) then none else l.tail;
          size = (l.size + (2 ^ 32 - 1)) % 2 ^ 32;
        }),
      )
]

unfoldable pub pop_back : Links → Option ℕ × Links
unfolding set_next set_prev same
pop_back l = elim l.tail [
  | none ↦ (none, l)
  | some p ↦
      let tail = l.prev p in
      let l1 = set_next tail none l in
      (
        some p,
        set_prev (some p) none (record l1 {
          tail = tail;
          head = if same l.head (some p) then none else l.head;
          size = (l.size + (2 ^ 32 - 1)) % 2 ^ 32;
        }),
      )
]

unfoldable pub remove : ℕ → Links → Links
unfolding set_next set_prev same
remove p l =
    let l1 = set_prev (l.next p) (l.prev p) l in
    let l2 = set_next (l.prev p) (l.next p) l1 in
    let l3 = set_prev (some p) none (set_next (some p) none l2) in
    record l3 {
      head = if same l.head (some p) then l.next p else l.head;
      tail = if same l.tail (some p) then l.prev p else l.tail;
      size = (l.size + (2 ^ 32 - 1)) % 2 ^ 32;
    }

unfoldable pub move_to_front : ℕ → Links → Links
unfolding set_next set_prev same
move_to_front p l =
    let bypassed = if same l.tail (some p) then l else set_prev (l.next p) (l.prev p) l in
    let l1 = set_next (l.prev p) (l.next p) bypassed in
    let l2 = set_next (some p) l.head (set_prev (some p) none l1) in
    let l3 = set_prev l.head (some p) l2 in
    if same l.head (some p)
    then l
    else record l3 { head = some p; tail = if same l.tail (some p) then l.prev p else l.tail }
