-- ===== src/Sandbox/Risk/Tags.antt =====
-- sandbox/policy.rs: exactly which conditions set each capability and each risk tag.
use text.Mathlib.TextEquality.{path_by_compare}
use open_jax.Prelude.{
  ℕ, ap, ◌∙◌, not, Option, none, some, take_while, if◌then◌else◌, Bool-cases, inl, inr, String, ◌≡◌,
  refl, Bool, true, false, ◌&&◌, ◌||◌, List, [], ◌∷◌, any, ◌==◌, arith, str_eq,
}
use open_jax.Prelude.Compare.{cmp_str}
use open_jax.Prelude.Sets
use open_jax.Prelude.Sets.{any-insert}
use open_jax.Prelude.Texts.{Text, codes, contains, starts_with, split_once, to_ascii_lowercase}
use open_jax.Prelude.Texts.Laws.{lower_idem}
use open_jax.Sandbox.Risk.Case.{env_assignment-lower}
use open_jax.Policy.Schema
use open_jax.Sandbox.Risk.{
  is_assignment, SandboxCapability, fs_read, fs_write, process_exec, network, env_read, env_write,
  index, cmp_capability, contains_any, starts_with_env_assignment, reads_env, insert_if,
  detect_capabilities, has_capability, extract_shell_risk_tags,
}

has-insert_if :
    (test : Bool) (c d : SandboxCapability) (caps : List SandboxCapability)
    → has_capability (insert_if cmp_capability test c caps) d
      ≡ (((index c == index d) && test) || has_capability caps d)
unfolding has_capability index
has-insert_if true c d caps =
    ground
      (arith, any-insert cmp_capability (λ e. index e == index d) (λ a b h. ground arith) c caps)
has-insert_if false c d caps = ground arith

tag-insert_if :
    (test : Bool) (t u : String) (tags : List String)
    → Schema.contains (insert_if cmp_str test t tags) u
      ≡ ((str_eq t u && test) || Schema.contains tags u)
tag-insert_if true t u tags =
    ground
      (arith, any-insert cmp_str (λ a. str_eq a u) (λ a b h. rw (path_by_compare a b h)) t tags)
tag-insert_if false t u tags = ground arith

or_false : (b : Bool) → (b || false) ≡ b
or_false true = refl
or_false false = refl

-- One of these texts occurs in the command, in whatever case.
abbrev pub mentions : List String → Text → Bool
mentions words command = any (λ p. contains (to_ascii_lowercase command) (codes p)) words

-- The first word is followed by a blank, has a `=` and does not begin with `/` or `./`.
abbrev pub assigns : Text → Bool
assigns command =
    let word = take_while (λ c. not (c == b' ')) command in
    any (λ c. c == b' ') command
    && contains word (codes "=")
    && not (starts_with word (codes "./"))
    && not (starts_with word (codes "/"))

-- What each capability is read from.
abbrev pub evidence : Text → SandboxCapability → Bool
evidence command fs_read =
    mentions
      ("cat " ∷ "ls " ∷ "rg " ∷ "grep " ∷ "find " ∷ "head " ∷ "tail " ∷ "wc " ∷ "sed " ∷ "awk "
        ∷ "stat " ∷ "uname " ∷ "which " ∷ "printf " ∷ [])
      command
evidence command fs_write =
    mentions
      (">" ∷ ">>" ∷ "tee " ∷ "touch " ∷ "mkdir " ∷ "rmdir " ∷ "rm " ∷ "mv " ∷ "cp " ∷ "chmod "
        ∷ "chown " ∷ "sed -i" ∷ "perl -i" ∷ "truncate " ∷ "git add " ∷ "git commit" ∷ "git merge"
        ∷ "git rebase" ∷ "git cherry-pick" ∷ "git tag -a" ∷ "git reset --hard" ∷ "git clean -fd"
        ∷ [])
      command
evidence command process_exec = true
evidence command network =
    mentions
      ("curl " ∷ "wget " ∷ "ssh " ∷ "scp " ∷ "nc " ∷ "nmap " ∷ "ping " ∷ "dig " ∷ "nslookup " ∷ [])
      command
evidence command env_read =
    mentions ("$" ∷ " env" ∷ []) command || starts_with (to_ascii_lowercase command) (codes "env ")
evidence command env_write = mentions ("export " ∷ []) command || assigns command

-- The part before the first separator, if there is one.
abbrev word_of : Option (Text × Text) → Option Text
word_of none = none
word_of (some (left, right)) = some left

first_word :
    (sep : ℕ) (text : Text)
    → word_of (split_once sep text)
      ≡ (if any (λ c. c == sep) text then some (take_while (λ c. not (c == sep)) text) else none)
unfolding split_once
first_word sep [] = refl
first_word sep (c ∷ text) = ground (arith, first_word sep text)

word-is_assignment :
    (o : Option (Text × Text)) (w : Text)
    → word_of o ≡ some w
    → is_assignment o ≡ (
        contains w (codes "=")
        && not (starts_with w (codes "./"))
        && not (starts_with w (codes "/")))
word-is_assignment none w h = cc
word-is_assignment (some (left, right)) w h = rw (some_inj left w h) refl
  where
    some_inj : (a b : Text) → some a ≡ some b → a ≡ b
    some_inj a b h = cc

no_word-is_assignment : (o : Option (Text × Text)) → word_of o ≡ none → is_assignment o ≡ false
no_word-is_assignment none h = refl
no_word-is_assignment (some p) h = cc

assigns_env : (command : Text) → starts_with_env_assignment command ≡ assigns command
unfolding starts_with_env_assignment
assigns_env command = elim (Bool-cases (any (λ c. c == b' ') command)) [
  | inl y ↦ rw y (
      word-is_assignment (split_once b' ' command) _ (
        first_word b' ' command
        ∙ ap (λ b. if b then some (take_while (λ c. not (c == b' ')) command) else none) y))
  | inr n ↦ rw n (
      no_word-is_assignment (split_once b' ' command) (
        first_word b' ' command
        ∙ ap (λ b. if b then some (take_while (λ c. not (c == b' ')) command) else none) n))
]

-- A command has exactly the capabilities for which there is evidence: the tokens of its lower-case
-- form, for `env_write` also its first word, and `process_exec` always.
pub capabilities_exact :
    (command : Text) (c : SandboxCapability)
    → has_capability (detect_capabilities command) c ≡ evidence command c
unfolding detect_capabilities contains_any reads_env
capabilities_exact command env_read =
    simp has-insert_if (unfold index has_capability Sets.insert in ground arith)
capabilities_exact command env_write =
    simp has-insert_if
      (unfold index has_capability Sets.insert in ground (arith, assigns_env command))
capabilities_exact command _ =
    simp has-insert_if (unfold index has_capability Sets.insert in simp or_false)

-- The condition for each risk tag.
abbrev pub conditions : Text → Bool → List (String × Bool)
conditions command require_escalated =
    ("write", evidence command fs_write || evidence command env_write)
    ∷ ("network", evidence command network)
    ∷ ("privilege_escalation", contains (to_ascii_lowercase command) (codes "sudo "))
    ∷ ("require_escalated", require_escalated)
    ∷ ("destructive", mentions ("rm -rf /" ∷ "mkfs" ∷ "dd if=" ∷ ":(){:|:&};:" ∷ []) command)
    ∷ []

-- A text is among the risk tags of a command exactly if it is one of the five tags and the condition
-- of that tag holds.
pub tags_exact :
    (command : Text) (require_escalated : Bool) (tag : String)
    → Schema.contains (extract_shell_risk_tags command require_escalated) tag
      ≡ any (λ c. str_eq c.0 tag && c.1) (conditions command require_escalated)
unfolding extract_shell_risk_tags contains_any
tags_exact command require_escalated tag = simp (tag-insert_if, capabilities_exact)

-- The tags of a command do not depend on the case of its letters.
pub tags-lower :
    (command : Text) (require_escalated : Bool)
    → extract_shell_risk_tags (to_ascii_lowercase command) require_escalated
      ≡ extract_shell_risk_tags command require_escalated
unfolding extract_shell_risk_tags detect_capabilities
tags-lower command require_escalated = simp (lower_idem, env_assignment-lower)
