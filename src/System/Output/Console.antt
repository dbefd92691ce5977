-- ===== src/System/Output/Console.antt =====
-- huginn/src/main.rs: `print_result` on the results of probes, and what reaches the terminal.
use huginn_io.Core.Config.Address.{Parsers}
use huginn_io.Core.Config.Env.{Env}
use huginn_io.Core.Config.Load.Safe.{IsPrintable, load_with_warnings-IsValid}
use huginn_io.Core.Config.Load.{load_with_warnings}
use huginn_io.Core.Config.{
  AppConfig, ProbeConfig, ProbeType, tcp, http, https, smtp, imap, udp, dns, tls, show_probe_type,
}
use huginn_io.Core.Decimal.{is_digit, show_nat, show_nat-IsDigitText}
use huginn_io.Core.Error.{Foreign, ok}
use huginn_io.Core.Platform.{Platform}
use huginn_io.Core.Types.Escape.{IsPlain}
use huginn_io.Core.Types.Results.{Verdict}
use huginn_io.Core.Types.{ProbeResult, is_control, tls_cert_expiry_days}
use huginn_io.Prelude.{
  ℕ, ◌≡◌, refl, sym, subst, Bool, true, false, List, [], ◌∷◌, ◌++◌, Option, none, some, arith, All,
  All-append, ap, ◌∙◌, ◌⊎◌, Text, codes, Bool-cases, inl, inr,
}
use huginn_io.Probes.Registry.Contract.{execute_probe-IsAbout, IsAbout}
use huginn_io.System.EndToEnd.{ProbeRun, result_of, Among, Among-IsPrintable}
use huginn_io.System.Output.{Segment, Terminal, print_result, or_empty, extra, status_mark}

show_probe_type-IsPlain : (t : ProbeType) → IsPlain (show_probe_type t)
unfolding show_probe_type is_control
show_probe_type-IsPlain tcp = ground arith
show_probe_type-IsPlain http = ground arith
show_probe_type-IsPlain https = ground arith
show_probe_type-IsPlain smtp = ground arith
show_probe_type-IsPlain imap = ground arith
show_probe_type-IsPlain udp = ground arith
show_probe_type-IsPlain dns = ground arith
show_probe_type-IsPlain tls = ground arith

pub digits-IsPlain : (s : Text) → All (λ c. is_digit c ≡ true) s → IsPlain s
unfolding is_control
digits-IsPlain [] h = tt
digits-IsPlain (c ∷ s) h = (ground arith, digits-IsPlain s h.1)

append-IsPlain : (s t : Text) → IsPlain s → IsPlain t → IsPlain (s ++ t)
append-IsPlain s t h k = All-append (λ c. is_control c ≡ false) s t h k

Verdict-IsPlain :
    (up : Bool) (code : Option ℕ) (error : Option Text) (e : Text)
    → Verdict up code error
    → error ≡ some e
    → IsPlain e
Verdict-IsPlain true code none e v h = cc
Verdict-IsPlain true code (some x) e v h = absurd v
Verdict-IsPlain false none none e v h = absurd v
Verdict-IsPlain false none (some x) e v h = subst IsPlain (ground arith) v
Verdict-IsPlain false (some c) none e v h = absurd v
Verdict-IsPlain false (some c) (some x) e v h = absurd v

abbrev pub AllPlain : List Segment → Type 0
AllPlain = All (λ s. IsPlain s.text)

or_empty-IsPlain : (o : Option Text) → ((t : Text) → o ≡ some t → IsPlain t) → IsPlain (or_empty o)
unfolding or_empty
or_empty-IsPlain none h = tt
or_empty-IsPlain (some t) h = h t refl

extra-AllPlain :
    (code : Option ℕ) (error : Option Text)
    → ((e : Text) → error ≡ some e → IsPlain e)
    → AllPlain (extra code error)
unfolding extra is_control
extra-AllPlain (some code) error h = (
  append-IsPlain (codes "  HTTP ") (show_nat code) (ground arith)
      (digits-IsPlain (show_nat code) (show_nat-IsDigitText code)),
  tt,
)
extra-AllPlain none (some e) h = (append-IsPlain (codes "  ") e (ground arith) (h e refl), tt)
extra-AllPlain none none h = tt

-- The character stands in the text.
abbrev pub OneOf : ℕ → Text → Type 0
OneOf c [] = ⊥
OneOf c (x ∷ s) = (c ≡ x) ⊎ OneOf c s

OneOf-IsPlain : (c : ℕ) (s : Text) → IsPlain s → OneOf c s → is_control c ≡ false
OneOf-IsPlain c [] h m = absurd m
OneOf-IsPlain c (x ∷ s) h (inl e) = ap is_control e ∙ h.0
OneOf-IsPlain c (x ∷ s) h (inr m) = OneOf-IsPlain c s h.1 m

plain_or_drawn :
    (c : ℕ) (source : Text)
    → IsPlain source
    → (is_control c ≡ false) ⊎ OneOf c source
    → is_control c ≡ false
plain_or_drawn c source h (inl e) = e
plain_or_drawn c source h (inr m) = OneOf-IsPlain c source h m

-- A text whose control characters stand in one that has none.
plain_if_drawn :
    (source j : Text)
    → IsPlain source
    → All (λ c. (is_control c ≡ false) ⊎ OneOf c source) j
    → IsPlain j
plain_if_drawn source [] h d = tt
plain_if_drawn source (c ∷ j) h d = (plain_or_drawn c source h d.0, plain_if_drawn source j h d.1)

-- The keys of the readings, one after another.
abbrev pub key_chars : {A : Type 0} → List (Text × A) → Text
key_chars [] = []
key_chars ((key, x) ∷ ms) = key ++ key_chars ms

key_chars-IsPlain :
    {A : Type 0} (ms : List (Text × A))
    → All (λ m. m.0 ≡ tls_cert_expiry_days) ms
    → IsPlain (key_chars ms)
unfolding is_control
key_chars-IsPlain [] h = tt
key_chars-IsPlain ((key, x) ∷ ms) h =
    append-IsPlain key (key_chars ms) (subst IsPlain (sym h.0) (ground arith))
      (key_chars-IsPlain ms h.1)

module _ {p : Platform} where
  -- The texts of a result that do not come from a format.
  pub record TextsPlain (r : ProbeResult p) : Type 0 where
    pub name : IsPlain r.probe_name
    pub kind : IsPlain r.probe_type
    pub target : IsPlain r.target
    pub error : (e : Text) → r.error ≡ some e → IsPlain e
    pub keys : IsPlain (key_chars r.metrics)

  -- The characters of a result's texts.
  abbrev pub text_chars : ProbeResult p → Text
  text_chars r =
      r.probe_name ++ (r.probe_type ++ (r.target ++ (or_empty r.error ++ key_chars r.metrics)))

  text_chars-IsPlain : (r : ProbeResult p) → TextsPlain r → IsPlain (text_chars r)
  text_chars-IsPlain r h = append-IsPlain r.probe_name _ h.name (
      append-IsPlain r.probe_type _ h.kind (
        append-IsPlain r.target _ h.target
          (append-IsPlain (or_empty r.error) _ (or_empty-IsPlain r.error h.error) h.keys)))

  -- The clock, the formats and the upper case have no control character of their own, and a control
  -- character in the JSON of a result stands in one of its texts: serde_json prints its
  -- punctuation, names, numbers and times without any, and a string's characters as they are or as
  -- an escape.
  pub record PrintsPlain (t : Terminal p) : Type 0 where
    pub timestamp : IsPlain t.timestamp
    pub upper : (s : Text) → IsPlain s → IsPlain (t.to_uppercase s)
    pub fixed : (n : ℕ) (x : p.F64) → IsPlain (p.show_fixed n x)
    pub to_json :
        (r : ProbeResult p) (j : Text)
        → t.to_json r ≡ some j
        → All (λ c. (is_control c ≡ false) ⊎ OneOf c (text_chars r)) j

  IsAbout-TextsPlain :
      (c : ProbeConfig p) (r : ProbeResult p)
      → IsPrintable c
      → IsAbout c (show_probe_type c.probe_type) r
      → TextsPlain r
  IsAbout-TextsPlain c r h a = record {
    name = subst IsPlain (sym a.name) h.name;
    kind = subst IsPlain (sym a.kind_label) (show_probe_type-IsPlain c.probe_type);
    target = subst IsPlain (sym a.target) h.target;
    error = λ e same. Verdict-IsPlain r.up r.status_code r.error e a.formed.verdict same;
    keys = key_chars-IsPlain r.metrics a.readings;
  }

  status_mark-IsPlain : (r : ProbeResult p) → IsPlain (status_mark r).text
  unfolding status_mark is_control
  status_mark-IsPlain r = elim (Bool-cases r.up) [
    | inl on ↦ rw on (ground arith)
    | inr off ↦ rw off (ground arith)
  ]

  print_result-AllPlain :
      (t : Terminal p) (r : ProbeResult p) (as_json : Bool)
      → PrintsPlain t
      → TextsPlain r
      → AllPlain (print_result t r as_json)
  unfolding print_result is_control
  print_result-AllPlain t r true k h = (
    or_empty-IsPlain (t.to_json r)
        (λ j e. plain_if_drawn (text_chars r) j (text_chars-IsPlain r h) (k.to_json r j e)),
    tt,
  )
  print_result-AllPlain t r false k h = (
    append-IsPlain (b'[' ∷ t.timestamp) (codes "]  ") (ground arith, k.timestamp) (ground arith),
    (
      status_mark-IsPlain r,
      (
        ground arith,
        (
          h.name,
          (
            ground arith,
            (
              k.upper r.probe_type h.kind,
              (
                ground arith,
                (
                  append-IsPlain (p.show_fixed 1 r.response_ms) (codes "ms")
                      (k.fixed 1 r.response_ms) (ground arith),
                  extra-AllPlain r.status_code r.error h.error,
                ),
              ),
            ),
          ),
        ),
      ),
    ),
  )

  -- If the clock, the number formats and the upper case add no control character, and serde_json
  -- none that is not in a text of the result, then for the configuration of any successful load and
  -- any run of one of its probes, whatever the network gave, the line that goes to the console
  -- holds no control character but those of the colours, in either format.
  pub print_result-loaded :
      (t : Terminal p) (n : Parsers) (env : Env) (path : Text) (file : Foreign Text)
      (from_str : Text → Foreign (AppConfig p)) (cfg : AppConfig p) (warnings : List Text)
      (run : ProbeRun p) (as_json : Bool)
      → PrintsPlain t
      → load_with_warnings n env path file from_str ≡ ok (cfg, warnings)
      → Among cfg.probes run.config
      → AllPlain (print_result t (result_of n run) as_json)
  print_result-loaded t n env path file from_str cfg warnings run as_json k loaded m =
      let printable = (load_with_warnings-IsValid n env path file from_str loaded).1 in
      let c = Among-IsPrintable cfg.probes run.config printable m in
      print_result-AllPlain t (result_of n run) as_json k (
        IsAbout-TextsPlain run.config (result_of n run) c
          (execute_probe-IsAbout n run.world run.now run.elapsed run.config))
