-- ===== src/Engine/Lua/Names.antt =====
-- server/engine.cpp: what the C functions do to the students.
use f1985gfw.Base.{
  fault≢ok, ℕ, zero, suc, ◌%◌, ◌^◌, ◌≡◌, ◌⊎◌, refl, false, sym, ap, ◌∙◌, subst, inl, inr, Option,
  none, some, List, [], ◌∷◌, ◌++◌, ◌==◌, Result, Fault, ok, fault, null_pointer, bad_argument,
  out_of_bounds, ◌>>=◌, or_fault, >>=-split, Option-cases, Bool-cases,
}
use f1985gfw.Base.Dict.{find, assign, find-assign, find-assign_self}
use f1985gfw.Base.Texts.{Text}
use f1985gfw.Worker.Closing.{ok-injective}
use f1985gfw.Engine.Lua.Students.{
  Student, set_age, Students, new_global, LuaValue, number, fraction, other_value, text, block,
  pointer, arg, last, checkudata, check_number, add_int, userdata_student, StudentCall, sum, create,
  name_it, its_name, global_one, its_age, age_it, lua_exec_sum, lua_create_student,
  lua_student_set_name, lua_student_get_name, lua_get_global_student, lua_student_get_age,
  lua_student_set_age, call_c, call_all, no_students,
}

-- No student was constructed in any block.
Raw : Students → Type 0
Raw s = (b : ℕ) → (find b s.blocks ≡ none) ⊎ (find b s.blocks ≡ some none)

userdata-fault :
    (v : Option LuaValue) (s : Students) → Raw s → (f : Fault) × (userdata_student v s ≡ fault f)
unfolding userdata_student Raw
userdata-fault none s raw = (_, refl)
userdata-fault (some (block b)) s raw = elim (raw b) [
  | inl e ↦ (out_of_bounds, rw (userdata_student, e) refl)
  | inr e ↦ (out_of_bounds, rw (userdata_student, e) refl)
]
userdata-fault (some (pointer p)) s raw = (_, refl)
userdata-fault (some (number n)) s raw = (_, refl)
userdata-fault (some fraction) s raw = (_, refl)
userdata-fault (some (text t)) s raw = (_, refl)
userdata-fault (some other_value) s raw = (_, refl)

abbrev pub returns : Students → List LuaValue → Result (Students × List LuaValue)
returns s rs = ok (s, rs)

-- A function that leaves the blocks alone.
stays :
    (s t u : Students) {rs qs : List LuaValue}
    → Raw s
    → s.blocks ≡ u.blocks
    → returns u rs ≡ returns t qs
    → Raw t
unfolding Raw
stays s t u raw same e =
    let after = same ∙ ap (λ (p : Students × List LuaValue). p.0.blocks) (ok-injective e) in
    λ b. subst (λ m. (find b m ≡ none) ⊎ (find b m ≡ some none)) after (raw b)

created :
    (s : Students)
    → Raw s
    → Raw (record s { blocks = assign s.next_block none s.blocks; next_block = suc s.next_block })
unfolding Raw
created s raw = λ b.
    rw (find-assign b s.next_block none s.blocks) (elim (Bool-cases (s.next_block == b)) [
      | inl new ↦ rw new (inr refl)
      | inr old ↦ rw old (raw b)
    ])

start-Raw : Raw (new_global no_students)
unfolding Raw new_global no_students find
start-Raw = λ b. inl refl

module _ (checkinteger : Option LuaValue → Option ℕ)
    (checklstring : Option LuaValue → Option Text) where
  set_name-fault :
      (args : List LuaValue) (s : Students)
      → Raw s
      → (f : Fault) × (lua_student_set_name checkinteger checklstring args s ≡ fault f)
  unfolding lua_student_set_name
  set_name-fault args s raw = elim (Option-cases (checklstring (arg (suc zero) args))) [
    | inl bad ↦ (bad_argument, rw bad refl)
    | inr (name, good) ↦ let (f, e) = userdata-fault (arg zero args) s raw in (f, rw (good, e) refl)
  ]

  get_name-fault :
      (args : List LuaValue) (s : Students)
      → Raw s
      → (f : Fault) × (lua_student_get_name checkinteger checklstring args s ≡ fault f)
  unfolding lua_student_get_name
  get_name-fault args s raw = let (f, e) = userdata-fault (arg zero args) s raw in (f, rw e refl)

  call_c-Raw :
      (f : StudentCall) (args : List LuaValue) (s t : Students) (rs : List LuaValue)
      → call_c checkinteger checklstring f args s ≡ ok (t, rs)
      → Raw s
      → Raw t
  unfolding call_c lua_exec_sum lua_create_student lua_get_global_student lua_student_get_age
      lua_student_set_age
  call_c-Raw sum args s t rs e raw =
      let (a, _, first) = >>=-split (or_fault (checkinteger (arg zero args)) _) _ e in
      let (b, _, second) = >>=-split (or_fault (checkinteger (arg (suc zero) args)) _) _ first in
      let (c, _, third) = >>=-split (add_int (a % 2 ^ 32) (b % 2 ^ 32)) _ second in
      stays s t s raw refl third
  call_c-Raw create args s t rs e raw =
      subst Raw (ap (λ (p : Students × List LuaValue). p.0) (ok-injective e)) (created s raw)
  call_c-Raw name_it args s t rs e raw =
      let (_, bad) = set_name-fault args s raw in absurd (fault≢ok (sym bad ∙ e))
  call_c-Raw its_name args s t rs e raw =
      let (_, bad) = get_name-fault args s raw in absurd (fault≢ok (sym bad ∙ e))
  call_c-Raw global_one args s t rs e raw =
      let (p, _, first) = >>=-split (or_fault s.global_ptr _) _ e in stays s t s raw refl first
  call_c-Raw its_age args s t rs e raw =
      let (p, _, first) = >>=-split (checkudata (arg zero args)) _ e in
      let (st, _, second) = >>=-split (or_fault (find p s.objects) _) _ first in
      stays s t s raw refl second
  call_c-Raw age_it args s t rs e raw =
      let (p, _, first) = >>=-split (checkudata (arg zero args)) _ e in
      let (n, _, second) = >>=-split (check_number (last args)) _ first in
      let (st, _, third) = >>=-split (or_fault (find p s.objects) _) _ second in
      stays s t _ raw refl third

  call_all-Raw :
      (calls : List (StudentCall × List LuaValue)) (s t : Students)
      → call_all checkinteger checklstring calls s ≡ ok t
      → Raw s
      → Raw t
  unfolding call_all
  call_all-Raw [] s t e raw = subst Raw (ok-injective e) raw
  call_all-Raw ((f, args) ∷ calls) s t e raw =
      let ((u, rs), first, rest) =
        >>=-split (call_c checkinteger checklstring f args s)
          (λ (u, rs). call_all checkinteger checklstring calls u) e in
      call_all-Raw calls u t rest (call_c-Raw f args s u rs first raw)

  -- After any calls that a script makes without an error, `lua_student_set_name` and `lua_student_get_name`
  -- fail, whatever their arguments: `lua_create_student` constructs no student in the memory that it hands
  -- out, and the one that `get_global_student` returns is no `student` but a pointer to one.
  pub call_all-names :
      (calls : List (StudentCall × List LuaValue)) (t : Students) (args : List LuaValue)
      → call_all checkinteger checklstring calls (new_global no_students) ≡ ok t
      → ((f : Fault) × (lua_student_set_name checkinteger checklstring args t ≡ fault f))
        × ((f : Fault) × (lua_student_get_name checkinteger checklstring args t ≡ fault f))
  call_all-names calls t args e =
      let raw = call_all-Raw calls (new_global no_students) t e start-Raw in
      (set_name-fault args t raw, get_name-fault args t raw)

last-append : (vs : List LuaValue) (w : LuaValue) → last (vs ++ w ∷ []) ≡ some w
unfolding last
last-append [] w = refl
last-append (v ∷ []) w = refl
last-append (v ∷ u ∷ vs) w = last-append (u ∷ vs) w

aged :
    (p n : ℕ) (s : Students) (st : Student)
    → let t : Students = record s { objects = assign p (set_age n st) s.objects } in
      (lua_student_get_age (pointer p ∷ []) t ≡ returns t (number n ∷ []))
      × ((q : ℕ) → (p == q) ≡ false → find q t.objects ≡ find q s.objects)
unfolding lua_student_get_age arg checkudata set_age
aged p n s st = (
  rw (find-assign_self p (set_age n st) s.objects) refl,
  λ q other. rw (find-assign q p (set_age n st) s.objects, other) refl,
)

-- `get_age` returns what the last successful `set_age` of the same pointer set, modulo 2 ^ 32, and the ages
-- and names of the other students stay.
pub set_age-get_age :
    (p n : ℕ) (between : List LuaValue) (s t : Students) (results : List LuaValue)
    → lua_student_set_age (pointer p ∷ between ++ number n ∷ []) s ≡ ok (t, results)
    → (lua_student_get_age (pointer p ∷ []) t ≡ ok (t, number (n % 2 ^ 32) ∷ []))
      × ((q : ℕ) → (p == q) ≡ false → find q t.objects ≡ find q s.objects)
unfolding lua_student_set_age lua_student_get_age arg checkudata check_number
set_age-get_age p n between s t results e =
    let run : (do
      age ← check_number (some (number n))
      st ← or_fault (find p s.objects) null_pointer
      returns (record s { objects = assign p (set_age (age % 2 ^ 32) st) s.objects }) [])
        ≡ returns t results =
      rw (last-append (pointer p ∷ between) (number n)) at e in
    let (st, _, done) = >>=-split (or_fault (find p s.objects) null_pointer) _ run in
    subst
      (λ (u : Students).
        (lua_student_get_age (pointer p ∷ []) u ≡ returns u (number (n % 2 ^ 32) ∷ []))
        × ((q : ℕ) → (p == q) ≡ false → find q u.objects ≡ find q s.objects))
      (ap (λ (r : Students × List LuaValue). r.0) (ok-injective done)) (aged p (n % 2 ^ 32) s st)
