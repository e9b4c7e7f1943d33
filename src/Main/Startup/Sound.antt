-- ===== src/Main/Startup/Sound.antt =====
-- main.go: what holds of a server that has started.
use gospidertrap.Common.{
  ◌≡◌, ◌≤◌, refl, ap, false, none, List, [], ◌∷◌, Text, text_eq, ltb, arith, length, Bool-cases,
  Option-cases, inl, inr,
}
use gospidertrap.Random.{new_source}
use gospidertrap.Random.Bias.{char_space}
use gospidertrap.Content.{new_generator}
use gospidertrap.Content.Pages.{IsUsable}
use gospidertrap.RateLimit.{RateLibrary}
use gospidertrap.Random.{IsReliable}
use gospidertrap.Admin.Token.{new_authenticator_total}
use gospidertrap.Stats.Manager.{new_manager}
use gospidertrap.Server.{validate}
use gospidertrap.Main.Options.{Options, check_rates}
use gospidertrap.Main.Wordlist.{ok, can_stat}
use gospidertrap.Paths.{validate_file_path}
use gospidertrap.Main.Startup.Results.{
  and_then-ok, and_then_ok, unless_error-ok, stop_on-ok, Gives, gives, if_ok,
}
use gospidertrap.Main.Startup.Opens.{IsOpened, CanOpen, open_backend-Gives, open_backend_ok}
use gospidertrap.Main.Startup.{
  Machine, Running, unless_error, stop_on, max_html_template_size, load_template, load_words,
  ensure_data_dir, open_backend, server_config, create_authenticator, start_up,
}

load_template-Gives :
    (machine : Machine) (html_file : Text)
    → Gives (λ html. length html ≤ max_html_template_size) (load_template machine.disk html_file)
unfolding load_template
load_template-Gives machine html_file = elim (Bool-cases (text_eq html_file [])) [
  | inl e ↦ rw (e, load_template) (omega arith)
  | inr e ↦
      elim (Option-cases (validate_file_path machine.disk.cwd (can_stat machine.disk) html_file)) [
        | inr (m, f) ↦ rw (e, f, load_template) tt
        | inl f ↦ elim (Option-cases (machine.disk.content html_file)) [
          | inl g ↦ rw (e, f, g, load_template) tt
          | inr (content, g) ↦ elim (Bool-cases (ltb max_html_template_size (length content))) [
            | inl large ↦ rw (e, f, g, large, load_template) tt
            | inr small ↦ rw (e, f, g, small, load_template) (ground (arith, small))
          ]
        ]
      ]
]

char_space-IsUsable : IsUsable (record { chars = char_space })
char_space-IsUsable = (cc, omega arith)

-- Nothing is in the way of a start.
pub record CanStart (machine : Machine) (o : Options) : Type 0 where
  pub rates : check_rates o ≡ none
  pub template : Text
  pub template_loads : load_template machine.disk o.html_file ≡ ok template
  pub words : List Text
  pub words_load : load_words machine.disk o.wordlist_file ≡ ok words
  pub directory : machine.mkdir_fails ≡ false
  pub opens : CanOpen machine o
  pub port : validate (server_config o) ≡ none
  pub device : IsReliable machine.device

ensure_data_dir_ok :
    (machine : Machine) (data_dir : Text)
    → machine.mkdir_fails ≡ false
    → (u : Text) × (ensure_data_dir machine data_dir ≡ ok u)
unfolding ensure_data_dir
ensure_data_dir_ok machine data_dir e =
    simp (e) (if_ok (text_eq data_dir []) (ok []) (ok []) ([], refl) ([], refl))

module _ (lib : RateLibrary) where
  start_up_ok :
      (machine : Machine) (o : Options)
      → CanStart machine o
      → (r : Running lib) × (start_up lib machine o ≡ ok r)
  unfolding start_up create_authenticator
  start_up_ok machine o c =
      let (u, made_dir) = ensure_data_dir_ok machine o.data_dir c.directory in
      let (b, opened) = open_backend_ok machine o c.opens in
      let (token, path, authenticated, safe, safe') =
        new_authenticator_total machine.device o.use_https 0 c.device in
      let made : create_authenticator machine o
          ≡ ok (record { token = token; path = b'/' ∷ path; use_https = o.use_https }, 64) =
        rw (authenticated, create_authenticator) refl in
      (
        _,
        and_then_ok _ _ _ _ (ap stop_on c.rates) (
            and_then_ok _ _ _ _ c.template_loads (
              and_then_ok _ _ _ _ c.words_load (
                and_then_ok _ _ _ _ made_dir (
                  and_then_ok _ _ _ _ opened (
                    and_then_ok _ _ _ _ (ap (unless_error _) c.port)
                      (and_then_ok _ _ _ _ made refl)))))),
      )

  -- What a start promises.
  pub record IsReady (machine : Machine) (o : Options) (r : Running lib) : Type 0 where
    pub rates : check_rates o ≡ none
    pub port : validate r.config ≡ none
    pub usable : IsUsable r.generator.random
    pub template_fits : length r.generator.html_template ≤ max_html_template_size
    pub opened :
        IsOpened machine o (record { db = r.manager.db; stats = r.manager.stats; log = r.log })

  -- A start that does not end in an error gives a server with rates in order, a valid port, a source with
  -- which pages can be made, a template of at most 10 MiB, only one of database and log (the log in
  -- file mode, the database in the other), and with the statistics that it loads in file mode, and new
  -- ones otherwise.
  pub start_up-IsReady :
      (machine : Machine) (o : Options) (r : Running lib)
      → start_up lib machine o ≡ ok r
      → IsReady machine o r
  unfolding start_up
  start_up-IsReady machine o r e =
      let (u1, e1, k1) = and_then-ok (stop_on (check_rates o)) _ r e in
      let (html, e2, k2) = and_then-ok (load_template machine.disk o.html_file) _ r k1 in
      let (words, e3, k3) = and_then-ok (load_words machine.disk o.wordlist_file) _ r k2 in
      let (u4, e4, k4) = and_then-ok (ensure_data_dir machine o.data_dir) _ r k3 in
      let (backend, e5, k5) = and_then-ok (open_backend machine o) _ r k4 in
      let (u6, e6, k6) = and_then-ok (unless_error _ (validate (server_config o))) _ r k5 in
      let (made, e7, k7) = and_then-ok (create_authenticator machine o) _ r k6 in
      gives (IsReady machine o) _ r k7 (record {
        rates = stop_on-ok (check_rates o) u1 e1;
        port = unless_error-ok _ (validate (server_config o)) u6 e6;
        usable = unfold new_source new_generator in char_space-IsUsable;
        template_fits =
            unfold new_generator in
            gives _ (load_template machine.disk o.html_file) html e2
              (load_template-Gives machine o.html_file);
        opened =
            unfold new_manager in
            gives _ (open_backend machine o) backend e5 (open_backend-Gives machine o);
      })

  -- If nothing is in the way of a start, the server starts; and then, as after every start, its rates
  -- are in order, its port is valid, pages can be made with its source, its template has at most
  -- 10 MiB, it has only one of database and log, and its statistics are those that it loads in file
  -- mode, and new ones otherwise.
  pub CanStart-IsReady :
      (machine : Machine) (o : Options)
      → CanStart machine o
      → (r : Running lib) × (start_up lib machine o ≡ ok r) × IsReady machine o r
  CanStart-IsReady machine o c =
      let (r, e) = start_up_ok machine o c in (r, e, start_up-IsReady machine o r e)
