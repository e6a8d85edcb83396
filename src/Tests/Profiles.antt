-- ===== src/Tests/Profiles.antt =====
-- Profiles with packs and pins.
use tool_smith.Base.{
  ◌≡◌, ◌≢◌, refl, true, false, Bytes, ascii, [], ◌∷◌, str_eq, contains, add, lookup,
}
use tool_smith.ToolProfile.{
  core_tools, Workspace, ResolveInput, lower, detect, normalize, add_all, tools_for_profile,
  enable_packs, disable_packs, pin_to, choose, profile_of, resolve_for, resolve,
}
use tool_smith.ToolProfile.Advertised.{resolve-pins}
use tool_smith.ToolProfile.Core.{resolve_for-core}

cpp_name : normalize (ascii "CPP") ≢ []
unfolding normalize lower contains str_eq
cpp_name e = cc

abbrev cmake_project : Bytes → Workspace
cmake_project root = record {
  is_directory = true;
  has_cmake_lists = true;
  has_compile_commands = false;
  extensions = ascii ".txt" ∷ [];
}

abbrev pinned : ResolveInput
pinned = record {
  profile = [];
  enable = ascii "skills" ∷ [];
  disable = [];
  pin_tools = ascii "skill" ∷ ascii "git" ∷ [];
  workspace_root = [];
}

pinned_fine : (resolve cmake_project pinned).error ≡ []
unfolding resolve resolve_for profile_of normalize lower detect choose enable_packs disable_packs
    pin_to tools_for_profile add_all add contains lookup str_eq
pinned_fine = refl

resolve-pins_example :
    contains (resolve cmake_project pinned).advertised (ascii "read")
    ≡ contains pinned.pin_tools (ascii "read")
resolve-pins_example = resolve-pins cmake_project pinned (ascii "read") refl pinned_fine

abbrev switched : ResolveInput
switched = record pinned { pin_tools = []; disable = ascii "skills" ∷ [] }

cpp_known : ascii "cpp" ≢ []
cpp_known e = cc

cpp_not_all : str_eq (ascii "cpp") (ascii "all") ≡ false
unfolding str_eq
cpp_not_all = refl

read_in_core : contains core_tools (ascii "read") ≡ true
unfolding contains str_eq
read_in_core = refl

resolve_for-core_example :
    contains (resolve_for switched (ascii "cpp")).advertised (ascii "read") ≡ true
resolve_for-core_example =
    resolve_for-core switched (ascii "cpp") (ascii "read") refl cpp_known cpp_not_all read_in_core
