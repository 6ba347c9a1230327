-- ===== src/Examples/Globs.antt =====
-- Runs of the matcher of crates/core-store/src/ssh_config/parse.rs.
use tern.Prelude.{◌≡◌, refl, Bool, true, false, some, [], codes, arith}
use tern.Glob.{glob_match, scan, enough, start}
use tern.Glob.Matches.{Matches}
use tern.Glob.Total.{scan_total}
use tern.Glob.Sound.{glob_match_sound}
use tern.Glob.Complete.{glob_match_complete}
use tern.Glob.StarText.{glob_match-star_text}

backtracks : glob_match (codes "a*c") (codes "abcbc") ≡ true
unfolding glob_match
backtracks = refl

no_d : glob_match (codes "a*d") (codes "abcbc") ≡ false
unfolding glob_match
no_d = refl

one_character : glob_match (codes "web?.example.com") (codes "web12.example.com") ≡ false
unfolding glob_match
one_character = refl

glob_match_sound_example : Matches (codes "a*c") (codes "abcbc")
glob_match_sound_example = glob_match_sound (codes "a*c") (codes "abcbc") backtracks

glob_match_complete_example : glob_match (codes "a*c") (codes "abcbc") ≡ true
glob_match_complete_example =
    glob_match_complete (codes "a*c") (codes "abcbc") (omega arith) glob_match_sound_example

scan_total_example :
    (b : Bool) × (scan (enough (codes "a*d") (codes "abcbc")) (codes "a*d") (codes "abcbc") start
      ≡ some b)
scan_total_example = scan_total (codes "a*d") (codes "abcbc")

glob_match-star_text_example :
    (glob_match (codes "*") (codes "*a") ≡ false) × Matches (codes "*") (codes "*a")
glob_match-star_text_example = glob_match-star_text b'a' []
