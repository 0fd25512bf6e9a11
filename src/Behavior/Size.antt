-- ===== src/Behavior/Size.antt =====
-- The size that `du` prints, as it is read back.
use cita_node_operator.Base.{String, ◌<>◌, ◌≡◌, refl, [], ◌∷◌, done}
use cita_node_operator.Base.Int.{ℤ, IsInt64}
use cita_node_operator.Base.Text.Decimal.{format_int, parse_int-format_int}
use cita_node_operator.Base.Text.Decimal.Tab.{before_tab-format_int}
use cita_node_operator.Host.{Host}
use cita_node_operator.Behavior.{calculate_size}

module _ {W : Type 0} (host : Host W) where
  -- Where `du` prints a size that is an `int64`, a tab and more, that size is calculated.
  pub calculate_size_lem :
      (path more : String) (n : ℤ) (w v : W)
      → IsInt64 n
      → host.combined_output ("du" ∷ "-sb" ∷ path ∷ []) w
        ≡ (done (format_int n <> ("\t" <> more)), v)
      → calculate_size host path w ≡ (done n, v)
  unfolding calculate_size
  calculate_size_lem path more n w v range printed =
      rw (printed, before_tab-format_int n more, parse_int-format_int n range) refl
