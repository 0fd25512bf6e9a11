-- ===== src/Host/Laws.antt =====
-- What the documentation of the machine's operations promises: files by path, and how `os.Stat`,
-- `os.RemoveAll`, `os.Open` and a hash of a file act on them. An operation that fails may leave
-- its part undone.
use text.Mathlib.Text.{starts_with}
use cita_node_operator.Base.{String, ◌<>◌, ◌==◌, ◌≡◌, Bool, false, ◌||◌, Option, none, some}
use cita_node_operator.Base.{Result, ok, err, not_exist}
use cita_node_operator.Base.Effects.{try}
use cita_node_operator.Base.Hoare.{Triple}
use cita_node_operator.Host.{Host}

abbrev pub Files : Type 0
Files = String → Option String

-- What the outcome of `os.Stat` says about the path.
abbrev pub Says : Result (Unit {0}) → Option String → Type 0
Says (ok _) there = (c : String) × (there ≡ some c)
Says (err not_exist) there = there ≡ none
Says (err _) there = Unit

-- The path itself, or one below it.
abbrev pub within : String → String → Bool
within path q = q == path || starts_with q (path <> "/")

module _ {W : Type 0} (host : Host W) where
  pub record HostLaws : Type 1 where
    -- The content of the file or directory at a path.
    pub files : W → Files
    pub path_of : host.Handle → String
    -- The sum of a content, in hexadecimal digits.
    pub md5_hex : String → String
    pub stat_law :
        (f : Files) (p : String)
        → Triple
            (λ w. files w ≡ f)
            (try (host.stat p))
            (λ r w. (files w ≡ f) × Says r (f p))
            (λ w. files w ≡ f)
    pub remove_all_law :
        (f : Files) (p : String)
        → Triple
            (λ w. files w ≡ f)
            (host.remove_all p)
            (λ _ w. (files w p ≡ none) × ((q : String) → within p q ≡ false → files w q ≡ f q))
            (λ _. Unit)
    pub open_file_law :
        (f : Files) (p : String)
        → Triple
            (λ w. files w ≡ f)
            (host.open_file p)
            (λ h w. (files w ≡ f) × (path_of h ≡ p))
            (λ w. files w ≡ f)
    pub copy_to_md5_law :
        (f : Files) (h : host.Handle)
        → Triple
            (λ w. files w ≡ f)
            (host.copy_to_md5 h)
            (λ sum w. (files w ≡ f) × ((c : String) × (f (path_of h) ≡ some c) × (sum ≡ md5_hex c)))
            (λ w. files w ≡ f)
