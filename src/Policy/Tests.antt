-- ===== src/Policy/Tests.antt =====
-- Runs of security.go, and the theorem about it at a concrete input.
use gist.Prelude.{◌≡◌, refl, ◌↔◌, [], ◌∷◌, some}
use gist.Text.{codes, to_lower_ascii, contains, bytes_eq, trim_space, fields, has_prefix}
use gist.Policy.{
  Policy, default_policy, check, accepted, denied, not_allowed, Passes, check_iff, is_shell_lang,
  first_token,
}

abbrev only_ls : Policy
only_ls = record {
  allowed_commands = codes "ls" ∷ [];
  denied_patterns = codes "sudo " ∷ [];
  max_output_bytes = 0;
}

check_denies :
    check to_lower_ascii (some only_ls) (codes "sh") (codes "SUDO ls") ≡ denied (codes "sudo ")
unfolding check to_lower_ascii contains has_prefix
check_denies = refl

check_refuses :
    check to_lower_ascii (some only_ls) (codes "sh") (codes " cat x") ≡ not_allowed (codes "cat")
unfolding check to_lower_ascii contains is_shell_lang first_token bytes_eq trim_space fields
    has_prefix
check_refuses = refl

check_iff_example :
    (check to_lower_ascii (some default_policy) (codes "sh") (codes "ls -l") ≡ accepted)
    ↔ Passes to_lower_ascii default_policy (codes "sh") (codes "ls -l")
check_iff_example = check_iff to_lower_ascii default_policy (codes "sh") (codes "ls -l")
