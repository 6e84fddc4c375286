-- ===== src/Flv/Live/Key.antt =====
-- The key of a stream that `getAppStreamKey` takes from its URL (protocol/flvlive/flvlive.go).
use golive.Common.{arith, ◌<◌, ◌≡◌, refl, ◌∙◌, true, false, some, [], ◌∷◌, ◌++◌, length}
use golive.Common.Go.{ok}
use golive.Common.Go.Strings.{GoString, ascii, has_prefix}
use golive.Flv.Live.{
  is_word, word_run, match_word, match_run, match_front, first_match, get_app_stream_key,
}

abbrev pub AreWords : GoString → Type 0
AreWords [] = Unit {0}
AreWords (c ∷ s) = (is_word c ≡ true) × AreWords s

-- What follows a run of word characters: nothing, or first a character that is not one.
abbrev pub EndsWord : GoString → Type 0
EndsWord [] = Unit {0}
EndsWord (c ∷ s) = is_word c ≡ false

word_run-EndsWord : (rest : GoString) → EndsWord rest → word_run rest ≡ ([], rest)
unfolding word_run
word_run-EndsWord [] h = refl
word_run-EndsWord (c ∷ s) h = rw h refl

word_run-Stops : (w rest : GoString) → AreWords w → EndsWord rest → word_run (w ++ rest) ≡ (w, rest)
unfolding word_run
word_run-Stops [] rest h e = word_run-EndsWord rest e
word_run-Stops (c ∷ w) rest (hc, h) e = rw (word_run-Stops w rest h e, hc) refl

match_word-Takes :
    (w rest : GoString)
    → AreWords w
    → 0 < length w
    → EndsWord rest
    → match_word (47 ∷ (w ++ rest)) ≡ some (w, rest)
unfolding match_word match_run
match_word-Takes [] rest h n e = absurd (omega arith)
match_word-Takes (c ∷ w) rest h n e = rw (word_run-Stops (c ∷ w) rest h e, match_word) refl

module _ (a b rest : GoString) (ha : AreWords a) (na : 0 < length a) (hb : AreWords b)
    (nb : 0 < length b) (e : EndsWord rest) where
  match_front-Takes : match_front (47 ∷ (a ++ (47 ∷ (b ++ rest)))) ≡ some (a, b)
  unfolding match_front is_word
  match_front-Takes =
      rw
        (
          match_word-Takes a (47 ∷ (b ++ rest)) ha na refl,
          match_word-Takes b rest hb nb e,
          match_front,
        )
        refl

  first_match-Takes : first_match (47 ∷ (a ++ (47 ∷ (b ++ rest)))) ≡ some (a, b)
  unfolding first_match
  first_match-Takes = rw (match_front-Takes, first_match) refl

skipped : (s : GoString) → first_match (ascii "rtmp:/" ++ (47 ∷ s)) ≡ first_match (47 ∷ s)
unfolding first_match match_front match_word match_run word_run is_word ascii
skipped s = refl

-- For a URL of `rtmp://`, a host of one word character or more (no port and no dot), `/`, an app of one
-- word character or more, and then either nothing or anything that does not begin with a word
-- character: the key is made of the host and the app.
pub key_of_named_host :
    (host app rest : GoString)
    → AreWords host
    → 0 < length host
    → AreWords app
    → 0 < length app
    → EndsWord rest
    → get_app_stream_key (ascii "rtmp://" ++ (host ++ (47 ∷ (app ++ rest))))
      ≡ ok (host ++ (45 ∷ app))
unfolding get_app_stream_key has_prefix ascii
key_of_named_host host app rest hh nh ha na e =
    let url = host ++ (47 ∷ (app ++ rest)) in
    rw (skipped url ∙ first_match-Takes host app rest hh nh ha na e, get_app_stream_key) refl
