-- ===== src/Engine/Lua.antt =====
-- server/engine.cpp and the same code in server/example.hpp: the calls into Lua. Lua's C API is a parameter:
-- `LuaApi` has the calls that are used, at the indices and numbers of results that they are used with, and
-- `LuaLaws` what the manual says they do to the stack. A stack is a list, its top first.
pub mod Depth
pub mod Reload
pub mod Leak
pub mod Students
pub mod Names
use Prim.Native.String.{String}
use f1985gfw.Base.{
  ℕ, ◌<◌, ◌≡◌, ◌≢◌, ◌⊎◌, Bool, true, false, Option, none, some, List, [], ◌∷◌, ◌++◌, length,
  if◌then◌else◌, ◌==◌, Result, ok, fault, bad_argument, ◌>>=◌, or_fault,
}
use f1985gfw.Engine.{
  LuaCall, run_script, new_state, new_example_state, call_check, call_check_function,
}

-- LUA_TTABLE and LUA_TFUNCTION.
abbrev pub t_table : ℕ
t_table = 5

abbrev pub t_function : ℕ
t_function = 6

-- The C functions that are registered.
pub data CFunction : Type 0 where
  exec_sum create_student student_set_name student_get_name get_global_student : CFunction

-- `call` is none when the function raises an error, which is not caught; a call that returns a type or a
-- code gives it second.
pub record LuaApi : Type 1 where
  pub State : Type 0
  pub Value : Type 0
  pub stack : State → List Value
  pub kind : Value → ℕ
  pub newstate : State
  pub getglobal : String → State → State × ℕ
  pub setglobal : String → State → State
  pub pushstring : String → State → State
  pub pushinteger : ℕ → State → State
  pub pushcfunction : CFunction → State → State
  pub pushvalue_top : State → State
  pub pushvalue_second : State → State
  pub gettable_second : State → State × ℕ
  pub getfield_second : String → State → State
  pub setfield_second : String → State → State
  pub concat_two : State → State
  pub newmetatable : String → State → State
  pub setfuncs : State → State
  pub remove_first : State → State
  pub pop : State → State
  pub pcall : ℕ → State → State × ℕ
  pub call : ℕ → State → Option State
  pub dofile : String → State → State × ℕ

-- What a protected call or a script leaves on the stack: its results, or a code and the error.
pub data Left {V : Type 0} (rest results : List V) : List V → ℕ → Type 0 where
  returned : Left rest results (results ++ rest) 0
  raised : (error : V) (code : ℕ) → code ≢ 0 → Left rest results (error ∷ rest) code

-- LUA_MINSTACK: the values that a stack has room for from the start. Nothing here asks for more room, and a
-- push without room is undefined.
abbrev pub min_stack : ℕ
min_stack = 20

pub record LuaLaws (lua : LuaApi) : Type 0 where
  pub newstate-empty : lua.stack lua.newstate ≡ []
  pub getglobal-push :
      (name : String) (s : lua.State)
      → length (lua.stack s) < min_stack
      → (v : lua.Value) × (lua.stack (lua.getglobal name s).0 ≡ v ∷ lua.stack s)
        × ((lua.getglobal name s).1 ≡ lua.kind v)
  pub setglobal-pop :
      (name : String) (s : lua.State) (v : lua.Value) (rest : List lua.Value)
      → lua.stack s ≡ v ∷ rest
      → lua.stack (lua.setglobal name s) ≡ rest
  pub pushstring-push :
      (text : String) (s : lua.State)
      → length (lua.stack s) < min_stack
      → (v : lua.Value) × (lua.stack (lua.pushstring text s) ≡ v ∷ lua.stack s)
  pub pushinteger-push :
      (n : ℕ) (s : lua.State)
      → length (lua.stack s) < min_stack
      → (v : lua.Value) × (lua.stack (lua.pushinteger n s) ≡ v ∷ lua.stack s)
  pub pushcfunction-push :
      (f : CFunction) (s : lua.State)
      → length (lua.stack s) < min_stack
      → (v : lua.Value) × (lua.stack (lua.pushcfunction f s) ≡ v ∷ lua.stack s)
  pub pushvalue_top-push :
      (s : lua.State) (v : lua.Value) (rest : List lua.Value)
      → length (lua.stack s) < min_stack
      → lua.stack s ≡ v ∷ rest
      → lua.stack (lua.pushvalue_top s) ≡ v ∷ v ∷ rest
  pub pushvalue_second-push :
      (s : lua.State) (v w : lua.Value) (rest : List lua.Value)
      → length (lua.stack s) < min_stack
      → lua.stack s ≡ v ∷ w ∷ rest
      → lua.stack (lua.pushvalue_second s) ≡ w ∷ v ∷ w ∷ rest
  pub gettable_second-replace :
      (s : lua.State) (key table : lua.Value) (rest : List lua.Value)
      → lua.stack s ≡ key ∷ table ∷ rest
      → (v : lua.Value) × (lua.stack (lua.gettable_second s).0 ≡ v ∷ table ∷ rest)
        × ((lua.gettable_second s).1 ≡ lua.kind v)
  pub getfield_second-push :
      (name : String) (s : lua.State)
      → length (lua.stack s) < min_stack
      → (v : lua.Value) × (lua.stack (lua.getfield_second name s) ≡ v ∷ lua.stack s)
  pub setfield_second-pop :
      (name : String) (s : lua.State) (v : lua.Value) (rest : List lua.Value)
      → lua.stack s ≡ v ∷ rest
      → lua.stack (lua.setfield_second name s) ≡ rest
  pub concat_two-join :
      (s : lua.State) (v w : lua.Value) (rest : List lua.Value)
      → lua.stack s ≡ v ∷ w ∷ rest
      → (u : lua.Value) × (lua.stack (lua.concat_two s) ≡ u ∷ rest)
  pub newmetatable-push :
      (name : String) (s : lua.State)
      → length (lua.stack s) < min_stack
      → (v : lua.Value) × (lua.stack (lua.newmetatable name s) ≡ v ∷ lua.stack s)
  pub setfuncs-stack : (s : lua.State) → lua.stack (lua.setfuncs s) ≡ lua.stack s
  pub remove_first-last :
      (s : lua.State) (above : List lua.Value) (v : lua.Value)
      → lua.stack s ≡ above ++ v ∷ []
      → lua.stack (lua.remove_first s) ≡ above
  pub pop-rest :
      (s : lua.State) (v : lua.Value) (rest : List lua.Value)
      → lua.stack s ≡ v ∷ rest
      → lua.stack (lua.pop s) ≡ rest
  pub pcall-left :
      (s : lua.State) (args : List lua.Value) (f : lua.Value) (rest : List lua.Value)
      → lua.stack s ≡ args ++ f ∷ rest
      → Left rest [] (lua.stack (lua.pcall (length args) s).0) (lua.pcall (length args) s).1
  pub call-rest :
      (s t : lua.State) (args : List lua.Value) (f : lua.Value) (rest : List lua.Value)
      → lua.stack s ≡ args ++ f ∷ rest
      → lua.call (length args) s ≡ some t
      → lua.stack t ≡ rest
  pub dofile-left :
      (path : String) (s : lua.State)
      → length (lua.stack s) < min_stack
      → (results : List lua.Value) × Left
          (lua.stack s)
          results
          (lua.stack (lua.dofile path s).0)
          (lua.dofile path s).1

abbrev pub script_path : String
script_path = "../../../../server/script/?.lua;"

abbrev pub main_script : String
main_script = "../../../../server/script/main.lua"

module _ (lua : LuaApi) where
  -- `luaL_dofile` and what follows it, in `init_script` and in the command `refresh`.
  unfoldable pub do_main : lua.State → lua.State
  do_main s = let (s, ret) = lua.dofile main_script s in if ret == 0 then s else lua.pop s

  -- The command `testlua1`.
  unfoldable pub check : lua.State → lua.State
  check s =
      let (s, type) = lua.getglobal "CheckAddBuffManager" s in
      if type == t_table
      then (let (s, type) = lua.gettable_second (lua.pushstring "Check" s) in
          if type == t_function
          then (lua.pcall 3 (
              lua.pushinteger 222
                (lua.pushinteger 111 (lua.remove_first (lua.pushvalue_second s))))).0
          else lua.pop (lua.pop s))
      else lua.pop s

  -- The command `testlua2`.
  unfoldable pub check_function : lua.State → Result lua.State
  check_function s =
      let (s, type) = lua.getglobal "CheckAddBuffManagerCheck" s in
      if type == t_function
      then or_fault (lua.call 2 (lua.pushstring "sdfsdf222" (lua.pushstring "sdfsdf111" s)))
          bad_argument
      else ok (lua.pop s)

  unfoldable pub set_package_path : lua.State → lua.State
  set_package_path s =
      let (s, _) = lua.getglobal "package" s in
      lua.pop (
        lua.setfield_second "path"
          (lua.concat_two (lua.getfield_second "path" (lua.pushstring script_path s))))

  unfoldable pub register : CFunction → String → lua.State → lua.State
  register f name s = lua.setglobal name (lua.pushcfunction f s)

  unfoldable pub register_student : lua.State → lua.State
  register_student s = lua.pop (
      lua.setfuncs
        (lua.setfield_second "__index" (lua.pushvalue_top (lua.newmetatable "StudentUserData" s))))

  -- `init_script` before it runs the main script. The state of before, if any, is closed.
  unfoldable pub prepare : lua.State
  prepare = register get_global_student "get_global_student" (
      register_student (
        register student_get_name "lua_student_get_name" (
          register student_set_name "lua_student_set_name" (
            register create_student "lua_create_student"
              (register exec_sum "lua_exec_sum" (set_package_path lua.newstate))))))

  unfoldable pub init_script : lua.State
  init_script = do_main prepare

  -- `init_script` of server/example.hpp: no function is registered.
  unfoldable pub example_script : lua.State
  example_script = do_main (set_package_path lua.newstate)

  -- What the commands ask of Lua.
  unfoldable pub perform : LuaCall → lua.State → Result lua.State
  perform run_script s = ok (do_main s)
  perform new_state s = ok init_script
  perform new_example_state s = ok example_script
  perform call_check s = ok (check s)
  perform call_check_function s = check_function s

  unfoldable pub perform_all : List LuaCall → lua.State → Result lua.State
  perform_all [] s = ok s
  perform_all (c ∷ cs) s = perform c s >>= perform_all cs
