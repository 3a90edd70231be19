-- ===== src/Engine/Lua/Students.antt =====
-- server/engine.{h,cpp}: the class `student`, and the C functions that Lua calls: from the arguments to the
-- results. What `luaL_checkinteger` and `luaL_checklstring` make of a value is a parameter; an error that is
-- raised in Lua is the fault bad_argument.
use f1985gfw.Base.{
  ℕ, zero, suc, ◌+◌, ◌-◌, ◌%◌, ◌^◌, Option, none, some, List, [], ◌∷◌, ltb, if◌then◌else◌, Result,
  ok, fault, bad_argument, null_pointer, out_of_bounds, ◌>>=◌, or_fault,
}
use f1985gfw.Base.Dict.{Dict, find, assign}
use f1985gfw.Base.Texts.{Text, codes}

pub record Student : Type 0 where
  pub name : Text
  pub age : ℕ

-- The constructor.
unfoldable pub student : Student
student = record { name = codes "Empty"; age = 0 }

unfoldable pub set_name : Text → Student → Student
set_name name s = record s { name = name }

-- `set_age` of a uint32_t.
unfoldable pub set_age : ℕ → Student → Student
set_age age s = record s { age = age }

-- A Lua value: a number by its 64 bits, or one that is no integer; a userdata of `lua_create_student` is a
-- `block`, one of `lua_get_global_student` holds a pointer, and has the metatable StudentUserData.
pub data LuaValue : Type 0 where
  number : ℕ → LuaValue
  fraction other_value : LuaValue
  text : Text → LuaValue
  block pointer : ℕ → LuaValue

-- The students that `new` made, by their address, the blocks that Lua has handed
-- out, none where no student was constructed, and `global_student_ptr`.
pub record Students : Type 0 where
  pub objects : Dict Student
  pub next : ℕ
  pub global_ptr : Option ℕ
  pub blocks : Dict (Option Student)
  pub next_block : ℕ

-- `global_student_ptr = new student()`, in `init_script`: the student of before is not deleted.
unfoldable pub new_global : Students → Students
new_global s = record s {
  objects = assign s.next student s.objects;
  next = suc s.next;
  global_ptr = some s.next;
}

-- Before the first `init_script`.
unfoldable pub no_students : Students
no_students = record { objects = []; next = 0; global_ptr = none; blocks = []; next_block = 0 }

unfoldable pub arg : ℕ → List LuaValue → Option LuaValue
arg i [] = none
arg zero (v ∷ vs) = some v
arg (suc i) (v ∷ vs) = arg i vs

-- The value at index -1 of a call's stack.
unfoldable pub last : List LuaValue → Option LuaValue
last [] = none
last (v ∷ vs) = elim vs [ [] ↦ some v | _ ∷ _ ↦ last vs ]

-- `luaL_checkudata` of StudentUserData: the pointer in the userdata.
unfoldable pub checkudata : Option LuaValue → Result ℕ
checkudata none = fault bad_argument
checkudata (some (pointer p)) = ok p
checkudata (some (block b)) = fault bad_argument
checkudata (some (text t)) = fault bad_argument
checkudata (some (number n)) = fault bad_argument
checkudata (some fraction) = fault bad_argument
checkudata (some other_value) = fault bad_argument

-- `luaL_checktype` of LUA_TNUMBER and `lua_tointeger`, which gives 0 for a number that is no integer.
unfoldable pub check_number : Option LuaValue → Result ℕ
check_number none = fault bad_argument
check_number (some (number n)) = ok n
check_number (some fraction) = ok 0
check_number (some (block b)) = fault bad_argument
check_number (some (pointer p)) = fault bad_argument
check_number (some (text t)) = fault bad_argument
check_number (some other_value) = fault bad_argument

-- `(student*)lua_touserdata` and the use of what it points to: not a userdata is a null pointer; in a block
-- there may be no student, and a userdata that holds a pointer is none.
unfoldable pub userdata_student : Option LuaValue → Students → Result (ℕ × Student)
userdata_student none s = fault null_pointer
userdata_student (some (block b)) s = elim (find b s.blocks) [
  | none ↦ fault out_of_bounds
  | some made ↦ elim made [ none ↦ fault out_of_bounds | some st ↦ ok (b, st) ]
]
userdata_student (some (pointer p)) s = fault out_of_bounds
userdata_student (some (number n)) s = fault null_pointer
userdata_student (some fraction) s = fault null_pointer
userdata_student (some (text t)) s = fault null_pointer
userdata_student (some other_value) s = fault null_pointer

unfoldable pub lua_get_global_student : List LuaValue → Students → Result (Students × List LuaValue)
lua_get_global_student args s = do p ← or_fault s.global_ptr null_pointer; ok (s, pointer p ∷ [])

unfoldable pub lua_student_get_age : List LuaValue → Students → Result (Students × List LuaValue)
lua_student_get_age args s = do
  p ← checkudata (arg 0 args)
  student ← or_fault (find p s.objects) null_pointer
  ok (s, number student.age ∷ [])

unfoldable pub lua_student_set_age : List LuaValue → Students → Result (Students × List LuaValue)
lua_student_set_age args s = do
  p ← checkudata (arg 0 args)
  age ← check_number (last args)
  student ← or_fault (find p s.objects) null_pointer
  ok (record s { objects = assign p (set_age (age % 2 ^ 32) student) s.objects }, [])

unfoldable pub lua_create_student : List LuaValue → Students → Result (Students × List LuaValue)
lua_create_student args s = ok (
  record s { blocks = assign s.next_block none s.blocks; next_block = suc s.next_block },
  block s.next_block ∷ [],
)

-- The sum of two int32_t, by their bits: a sum of another sign than both overflows.
unfoldable pub add_int : ℕ → ℕ → Result ℕ
add_int a b =
    let total = (a + b) % 2 ^ 32 in
    if ltb a (2 ^ 31)
    then (if ltb b (2 ^ 31)
        then (if ltb total (2 ^ 31) then ok total else fault bad_argument)
        else ok total)
    else (if ltb b (2 ^ 31)
        then ok total
        else (if ltb total (2 ^ 31) then fault bad_argument else ok total))

-- The 64 bits of an int32_t.
unfoldable pub extend : ℕ → ℕ
extend n = if ltb n (2 ^ 31) then n else n + (2 ^ 64 - 2 ^ 32)

pub data StudentCall : Type 0 where
  sum create name_it its_name global_one its_age age_it : StudentCall

module _ (checkinteger : Option LuaValue → Option ℕ)
    (checklstring : Option LuaValue → Option Text) where
  unfoldable pub lua_exec_sum : List LuaValue → Students → Result (Students × List LuaValue)
  lua_exec_sum args s = do
    param1 ← or_fault (checkinteger (arg 0 args)) bad_argument
    param2 ← or_fault (checkinteger (arg 1 args)) bad_argument
    result ← add_int (param1 % 2 ^ 32) (param2 % 2 ^ 32)
    ok (s, number (extend result) ∷ [])

  unfoldable pub lua_student_set_name : List LuaValue → Students → Result (Students × List LuaValue)
  lua_student_set_name args s = do
    name ← or_fault (checklstring (arg 1 args)) bad_argument
    (b, st) ← userdata_student (arg 0 args) s
    ok (record s { blocks = assign b (some (set_name name st)) s.blocks }, [])

  unfoldable pub lua_student_get_name : List LuaValue → Students → Result (Students × List LuaValue)
  lua_student_get_name args s = do
    (b, st) ← userdata_student (arg 0 args) s
    ok (s, text st.name ∷ [])

  -- Any of the functions.
  unfoldable pub call_c : StudentCall → List LuaValue → Students → Result (Students × List LuaValue)
  call_c sum args s = lua_exec_sum args s
  call_c create args s = lua_create_student args s
  call_c name_it args s = lua_student_set_name args s
  call_c its_name args s = lua_student_get_name args s
  call_c global_one args s = lua_get_global_student args s
  call_c its_age args s = lua_student_get_age args s
  call_c age_it args s = lua_student_set_age args s

  -- What a script calls, one after another.
  unfoldable pub call_all : List (StudentCall × List LuaValue) → Students → Result Students
  call_all [] s = ok s
  call_all ((f, args) ∷ calls) s = do (s, results) ← call_c f args s; call_all calls s
