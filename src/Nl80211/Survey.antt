-- ===== src/Nl80211/Survey.antt =====
-- nl80211_get_survey_cb and ifctrl_iwget_survey of linux/ifctrl-nl80211.c: what was measured on channels.
use libuwifi.Base.{
  ℕ, suc, ◌+◌, ◌≤◌, ◌≡◌, refl, ◌∙◌, ap, ℤ, Bool, true, Option, none, some, List, [], ◌∷◌, ◌>>=◌,
  leb, if◌then◌else◌, min, length, length-set, set, get_elem?_lt, arith, Bool-cases, inl, inr,
}
use libuwifi.Nl80211.Settings.{given_or}
use libuwifi.Nl80211.Stations.{Filling, put_next, byte_or}

-- `struct survey_info`
pub record SurveyInfo : Type 0 where
  pub freq : ℕ
  pub in_use : Bool
  pub noise : ℤ
  pub time_active : ℕ
  pub time_busy : ℕ
  pub time_busy_ext : ℕ
  pub time_rx : ℕ
  pub time_tx : ℕ

-- The nested attributes NL80211_SURVEY_INFO_FREQUENCY, _IN_USE, _NOISE and _CHANNEL_TIME.
pub record SurveyAttrs : Type 0 where
  pub attr_frequency : Option ℕ
  pub attr_in_use : Bool
  pub attr_noise : Option ℕ
  pub attr_time : Option ℕ
  pub attr_busy : Option ℕ
  pub attr_ext_busy : Option ℕ
  pub attr_rx : Option ℕ
  pub attr_tx : Option ℕ

-- The element that a message writes.
abbrev pub write_survey : SurveyAttrs → SurveyInfo → SurveyInfo
write_survey a old = record {
  freq = given_or a.attr_frequency old.freq;
  in_use = a.attr_in_use;
  noise = byte_or a.attr_noise old.noise;
  time_active = given_or a.attr_time old.time_active;
  time_busy = given_or a.attr_busy old.time_busy;
  time_busy_ext = given_or a.attr_ext_busy old.time_busy_ext;
  time_rx = given_or a.attr_rx old.time_rx;
  time_tx = given_or a.attr_tx old.time_tx;
}

-- nl80211_get_survey_cb, for the nested attributes, if they are there and libnl can parse them.
abbrev pub get_survey_cb : ℕ → Option SurveyAttrs → Filling SurveyInfo → Option (Filling SurveyInfo)
get_survey_cb maxlen none s = some s
get_survey_cb maxlen (some a) s = put_next maxlen (λ old. some (write_survey a old)) s

-- The messages that nl80211_send_recv gives to the callback, one behind the other.
abbrev pub get_surveys :
    ℕ → List (Option SurveyAttrs) → Filling SurveyInfo → Option (Filling SurveyInfo)
get_surveys maxlen [] s = some s
get_surveys maxlen (msg ∷ msgs) s = get_survey_cb maxlen msg s >>= λ r. get_surveys maxlen msgs r

-- ifctrl_iwget_survey, for the messages that come and the success of the call: the value returned and the
-- array.
unfoldable pub iwget_survey :
    Bool → ℕ → List (Option SurveyAttrs) → List SurveyInfo → Option (ℕ × List SurveyInfo)
iwget_survey ok maxlen msgs infos =
    get_surveys maxlen msgs (record { items = infos; idx = 0 }) >>= λ r.
    some (if ok then r.idx else 0, r.items)

-- The number of messages that tell of a channel.
abbrev pub count : List (Option SurveyAttrs) → ℕ
count [] = 0
count (none ∷ msgs) = count msgs
count (some a ∷ msgs) = suc (count msgs)

surveys_lem :
    (maxlen : ℕ) (msgs : List (Option SurveyAttrs)) (s : Filling SurveyInfo)
    → maxlen ≤ length s.items
    → s.idx ≤ maxlen
    → (s' : Filling SurveyInfo) × (get_surveys maxlen msgs s ≡ some s')
      × (s'.idx ≡ min maxlen (s.idx + count msgs))
      × (length s'.items ≡ length s.items)
surveys_lem maxlen [] s room below = (s, refl, omega arith, refl)
surveys_lem maxlen (none ∷ msgs) s room below = surveys_lem maxlen msgs s room below
surveys_lem maxlen (some a ∷ msgs) s room below = elim (Bool-cases (leb maxlen s.idx)) [
  | inl full ↦
      let (s', runs, idx, size) = surveys_lem maxlen msgs s room below in
      let last : maxlen ≤ s.idx = ground arith in (s', rw full runs, omega (arith, idx, last), size)
  | inr space ↦
      let less : suc s.idx ≤ maxlen = ground arith in
      let (old, at) = get_elem?_lt s.items s.idx (omega arith) in
      let same = length-set s.items s.idx (write_survey a old) in
      let (s', runs, idx, size) =
        surveys_lem maxlen msgs
          (record { items = set s.items s.idx (write_survey a old); idx = suc s.idx })
          (omega (arith, same)) less in
      (s', rw (space, at) runs, omega (arith, idx), size ∙ same)
]

-- An array of `maxlen` elements or more is filled inside its bounds, with one element for each message, up to
-- `maxlen`, and their number is returned.
pub iwget_survey_lem :
    (maxlen : ℕ) (msgs : List (Option SurveyAttrs)) (infos : List SurveyInfo)
    → maxlen ≤ length infos
    → (infos' : List SurveyInfo) × (iwget_survey true maxlen msgs infos
        ≡ some (min maxlen (count msgs), infos'))
      × (length infos' ≡ length infos)
unfolding iwget_survey
iwget_survey_lem maxlen msgs infos room =
    let (s', runs, idx, size) =
      surveys_lem maxlen msgs (record { items = infos; idx = 0 }) room (omega arith) in
    let number : s'.idx ≡ min maxlen (count msgs) = omega (arith, idx) in
    (s'.items, rw runs (ap (λ n. some (n, s'.items)) number), size)
