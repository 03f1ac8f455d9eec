-- ===== src/Config/Commands/Executable.antt =====
-- loadCommands: the paths of the commands that it makes available.
use ops_mcp.Config.Errors.{FileRead, missing, unreadable, malformed, decoded}
use ops_mcp.Config.Commands.{
  Warning, FileInfo, normalize_path_candidates, command_path_available, resolve_command_path,
  check_absolute, add_command, load_commands,
}
use ops_mcp.Config.Named.{refuse_iff, then_iff}
use ops_mcp.Model.Command.{Command}
use mathlib.Core.Path.{subst}
use ops_mcp.Prelude.{
  ◌≡◌, refl, ap, inl, inr, Bool, true, false, not, Option, some, List, [], ◌∷◌, arith,
  if◌then◌else◌, Bool-cases, nat_eq, ◌==◌, is_nil, All, here, there, Has, All-at, Str, str_eq,
  is_empty, Dict, lookup, has, insert, lookup-insert, ok, ok_injective, for_each-keeps, ◌&&◌, none,
}

module _ (clean : Str → Str) (is_abs : Str → Bool) (stat : Str → Option FileInfo) where
  -- The chosen path is one of the candidates, absolute, and a file that may be executed.
  pub record IsExecutable (c : Command) : Type 0 where
    pub chosen : Has c.path c.paths
    pub absolute : is_abs c.path ≡ true
    pub info : FileInfo
    pub there : stat c.path ≡ some info
    pub file : info.is_dir ≡ false
    pub may_run : info.is_executable ≡ true

  available_file :
      (path : Str)
      → command_path_available clean is_abs stat path ≡ true
      → (info : FileInfo) × (stat path ≡ some info)
        × (info.is_dir ≡ false)
        × (info.is_executable ≡ true)
  unfolding command_path_available
  available_file path h = go (stat path) refl
    where
      go :
          (o : Option FileInfo)
          → stat path ≡ o
          → (info : FileInfo) × (stat path ≡ some info)
            × (info.is_dir ≡ false)
            × (info.is_executable ≡ true)
      go none e = absurd (cc (rw (e, command_path_available) at h))
      go (some info) e =
          let g : (not info.is_dir && info.is_executable) ≡ true =
            rw (e, command_path_available) at h in
          (info, e, ground arith, ground arith)

  resolved_available :
      (ps : List Str)
      → is_empty (resolve_command_path clean is_abs stat ps) ≡ false
      → Has (resolve_command_path clean is_abs stat ps) ps
        × (command_path_available clean is_abs stat (resolve_command_path clean is_abs stat ps)
            ≡ true)
  unfolding resolve_command_path
  resolved_available [] h = absurd (cc h)
  resolved_available (p ∷ ps) h = elim (Bool-cases (command_path_available clean is_abs stat p)) [
    | inl e ↦ rw (e, resolve_command_path) (here refl, e)
    | inr e ↦
        let (member, a) = resolved_available ps (rw (e, resolve_command_path) at h) in
        rw (e, resolve_command_path) (there member, a)
  ]

  check_absolute-All :
      (name : Str) (ps : List Str)
      → check_absolute clean is_abs stat name ps ≡ ok tt
      → All (λ p. is_abs p ≡ true) ps
  unfolding check_absolute
  check_absolute-All name [] h = tt
  check_absolute-All name (p ∷ ps) h =
      let (e, rest) =
        (refuse_iff (not (is_abs p)) _ (check_absolute clean is_abs stat name ps) tt).0 h in
      (ground (arith, e), check_absolute-All name ps rest)

  -- Every command that can be looked up is executable.
  AllExecutable : Dict Command × List Warning → Type 0
  AllExecutable (out, warnings) = (k : Str) (c : Command) → lookup k out ≡ some c → IsExecutable c

  insert-AllExecutable :
      (c : Command) (key : Str) (out : Dict Command) (warnings : List Warning)
      → IsExecutable c
      → AllExecutable (out, warnings)
      → AllExecutable (insert key c out, warnings)
  unfolding AllExecutable
  insert-AllExecutable c key out warnings good every k d found = elim (Bool-cases (key == k)) [
    | inl e ↦
        subst IsExecutable
          (cc (lookup-insert key k c out, found, ap (λ b. if b then some c else lookup k out) e))
          good
    | inr e ↦
        every k d
          (cc (lookup-insert key k c out, found, ap (λ b. if b then some c else lookup k out) e))
  ]

  left_out :
      (out : Dict Command) (ws vs : List Warning)
      → AllExecutable (out, ws)
      → AllExecutable (out, vs)
  unfolding AllExecutable
  left_out out ws vs every = every

  add_command-keeps :
      (c : Command) (s s' : Dict Command × List Warning)
      → add_command clean is_abs stat c s ≡ ok s'
      → AllExecutable s
      → AllExecutable s'
  unfolding add_command
  add_command-keeps c (out, warnings) s' h every =
      let candidates = normalize_path_candidates clean is_abs stat c.paths in
      let h1 = ((refuse_iff (is_empty c.name) _ _ s').0 h).1 in
      let h2 = ((refuse_iff (is_nil candidates) _ _ s').0 h1).1 in
      let (absolute, h3) =
        (then_iff (check_absolute clean is_abs stat c.name candidates) _ s').0 h2 in
      let h4 = ((refuse_iff (has c.name out) _ _ s').0 h3).1 in
      elim (Bool-cases (is_empty (resolve_command_path clean is_abs stat candidates))) [
        | inl e ↦ subst AllExecutable (ok_injective (rw e at h4)) (left_out out warnings _ every)
        | inr e ↦
            let (member, there_to_run) = resolved_available candidates e in
            let (info, there_is, file, may_run) = available_file _ there_to_run in
            subst AllExecutable (ok_injective (rw e at h4)) (
              insert-AllExecutable _ c.name out warnings
                (record {
                  chosen = member;
                  absolute =
                      All-at (λ p. is_abs p ≡ true) (check_absolute-All c.name candidates absolute)
                        member;
                  info = info;
                  there = there_is;
                  file = file;
                  may_run = may_run;
                })
                every)
      ]

  none_loaded : AllExecutable ([], [])
  unfolding AllExecutable lookup
  none_loaded k c found = absurd (cc found)

  -- Every command that a load of commands.yaml makes available has a path that is one of its
  -- candidates, absolute, and at the time of the load an executable file.
  pub load_commands_lem :
      (read : Str → FileRead (List Command)) (path : Str) (out : Dict Command)
      (warnings : List Warning)
      → load_commands clean is_abs stat read path ≡ ok (out, warnings)
      → (k : Str) (c : Command) → lookup k out ≡ some c
      → IsExecutable c
  unfolding AllExecutable load_commands
  load_commands_lem read path out warnings h = go (read path) refl
    where
      go : (r : FileRead (List Command)) → read path ≡ r → AllExecutable (out, warnings)
      go missing e = subst AllExecutable (ok_injective (rw (e, load_commands) at h)) none_loaded
      go unreadable e = absurd (cc (rw (e, load_commands) at h))
      go malformed e = absurd (cc (rw (e, load_commands) at h))
      go (decoded cs) e =
          for_each-keeps (add_command clean is_abs stat) AllExecutable add_command-keeps cs ([], [])
            (out, warnings) (rw (e, load_commands) at h) none_loaded
