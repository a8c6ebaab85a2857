-- ===== src/Sandbox/Risk.antt =====
-- openjax-core/src/sandbox/policy.rs: capabilities and risk tags of a shell command.
mod Case
pub mod Tags
use open_jax.Prelude.{
  ℕ, String, compare, Ordering, Bool, true, false, ◌&&◌, ◌||◌, not, List, [], ◌∷◌, Option, none,
  some, any, if◌then◌else◌, ◌==◌,
}
use open_jax.Prelude.Compare.{cmp_str}
use open_jax.Prelude.Sets
use open_jax.Prelude.Texts.{Text, codes, starts_with, contains, to_ascii_lowercase, split_once}

pub data SandboxCapability : Type 0 where
  fs_read fs_write process_exec network env_read env_write : SandboxCapability

-- The derived order is that of the declaration.
unfoldable pub index : SandboxCapability → ℕ
index fs_read = 0
index fs_write = 1
index process_exec = 2
index network = 3
index env_read = 4
index env_write = 5

abbrev pub cmp_capability : SandboxCapability → SandboxCapability → Ordering
unfolding index
cmp_capability a b = compare (index a) (index b)

-- `patterns.iter().any(|p| lower.contains(p))`
unfoldable pub contains_any : List String → Text → Bool
contains_any patterns text = any (λ p. contains text (codes p)) patterns

abbrev pub destructive_patterns : List String
destructive_patterns = "rm -rf /" ∷ "mkfs" ∷ "dd if=" ∷ ":(){:|:&};:" ∷ []

abbrev pub write_tokens : List String
write_tokens =
    ">" ∷ ">>" ∷ "tee " ∷ "touch " ∷ "mkdir " ∷ "rmdir " ∷ "rm " ∷ "mv " ∷ "cp " ∷ "chmod "
    ∷ "chown " ∷ "sed -i" ∷ "perl -i" ∷ "truncate " ∷ "git add " ∷ "git commit" ∷ "git merge"
    ∷ "git rebase" ∷ "git cherry-pick" ∷ "git tag -a" ∷ "git reset --hard" ∷ "git clean -fd" ∷ []

abbrev pub network_tokens : List String
network_tokens =
    "curl " ∷ "wget " ∷ "ssh " ∷ "scp " ∷ "nc " ∷ "nmap " ∷ "ping " ∷ "dig " ∷ "nslookup " ∷ []

abbrev pub read_tokens : List String
read_tokens =
    "cat " ∷ "ls " ∷ "rg " ∷ "grep " ∷ "find " ∷ "head " ∷ "tail " ∷ "wc " ∷ "sed " ∷ "awk "
    ∷ "stat " ∷ "uname " ∷ "which " ∷ "printf " ∷ []

abbrev pub is_assignment : Option (Text × Text) → Bool
is_assignment none = false
is_assignment (some (left, right)) =
    contains left (codes "=")
    && not (starts_with left (codes "./"))
    && not (starts_with left (codes "/"))

unfoldable pub starts_with_env_assignment : Text → Bool
starts_with_env_assignment command = is_assignment (split_once b' ' command)

unfoldable pub reads_env : Text → Bool
reads_env lower =
    contains lower (codes "$") || contains lower (codes " env") || starts_with lower (codes "env ")

-- `if test { set.insert(value); }`
abbrev pub insert_if {ℓ} : {A : Type ℓ} → (A → A → Ordering) → Bool → A → List A → List A
insert_if cmp test value set = if test then Sets.insert cmp value set else set

unfoldable pub detect_capabilities : Text → List SandboxCapability
detect_capabilities command =
    let lower = to_ascii_lowercase command in
    let put = insert_if cmp_capability in
    put (contains lower (codes "export ") || starts_with_env_assignment command) env_write (
      put (contains_any read_tokens lower) fs_read (
        put (contains_any network_tokens lower) network (
          put (contains_any write_tokens lower) fs_write
            (put (reads_env lower) env_read (Sets.insert cmp_capability process_exec [])))))

unfoldable pub has_capability : List SandboxCapability → SandboxCapability → Bool
has_capability caps c = any (λ d. index d == index c) caps

unfoldable pub extract_shell_risk_tags : Text → Bool → List String
unfolding has_capability
extract_shell_risk_tags command require_escalated =
    let lower = to_ascii_lowercase command in
    let capabilities = detect_capabilities command in
    let put = insert_if cmp_str in
    put (has_capability capabilities fs_write || has_capability capabilities env_write) "write" (
      put (has_capability capabilities network) "network" (
        put (contains lower (codes "sudo ")) "privilege_escalation" (
          put require_escalated "require_escalated"
            (put (contains_any destructive_patterns lower) "destructive" []))))
