-- ===== src/Engine/Boot/Resources/Sandboxed.antt =====
-- Start from the sandbox on: every error gives back what is open.
use quackridge.Prelude.{refl, ap, true, false, none, some}
use quackridge.Prelude.Text.{Text, lit}
use quackridge.Service.Defs.{Options}
use quackridge.Engine.Runtime.{internal_failure}
use quackridge.Engine.Boot.{
  Host, Held, nothing_held, cleaning, acquire, with_error, release_connection,
}
use quackridge.Engine.Boot.Configure.{configure}
use quackridge.Engine.Boot.Start.{serve, close_two, close_three, boot_sandboxed}
use quackridge.Engine.Boot.Resources.{
  Stage, Ends, then_Ends, with_error-Ends, cleaning-Ends, acquire-Ends,
}
use quackridge.Engine.Boot.Resources.Parts.{
  loaded, configured, serving, serves-configured, configure-Ends, serve-Ends,
}

-- What is open after each acquisition.
abbrev pub with_database : Held
with_database = record { database = true; sandbox = none; policy = false; connection = false }

abbrev pub with_sandbox : Text → Held
with_sandbox path = record {
  database = true;
  sandbox = some path;
  policy = false;
  connection = false;
}

abbrev pub with_policy : Text → Held
with_policy path = record {
  database = true;
  sandbox = some path;
  policy = true;
  connection = false;
}

abbrev pub all_held : Text → Held
all_held path = record { database = true; sandbox = some path; policy = true; connection = true }

-- The parts of what is open that the cleanups give back.
abbrev two : Held → Held
two h = record (record h { database = false }) { sandbox = none }

abbrev three : Held → Held
three h = two (record h { policy = false })

abbrev drop : Held → Held
drop h = record h { connection = false }

abbrev pub drop_database : Held → Held
drop_database h = record h { database = false }

abbrev take_policy : Held → Held
take_policy h = record h { policy = true }

abbrev take_connection : Held → Held
take_connection h = record h { connection = true }

module _ {D : Type 0} (host : Host D) where
  pub boot_sandboxed-Ends :
      (options : Options) (sandbox : Text)
      → Ends
          (boot_sandboxed host options sandbox)
          (record { held = with_sandbox sandbox; executed = loaded host options })
          (serving host options (all_held sandbox) sandbox)
          nothing_held
  unfolding boot_sandboxed
  boot_sandboxed-Ends options sandbox =
      let c = serves-configured host options sandbox in
      let at : Held → Stage =
        λ h. record { held = h; executed = configured host options sandbox } in
      let h2 = with_sandbox sandbox in
      let h3 = with_policy sandbox in
      let h4 = all_held sandbox in
      let final = serving host options h4 sandbox in
      let first =
        cleaning-Ends (close_two host sandbox) (configure host options sandbox)
          (record { held = h2; executed = loaded host options }) (λ _. at h2) h2 nothing_held
          (configure-Ends host options sandbox
            (record { held = h2; executed = loaded host options }) refl)
          (λ b e. (ap two e, refl)) in
      let second =
        cleaning-Ends {V = Unit {0}} (close_two host sandbox)
          (with_error _ (acquire host.install_policy take_policy)) (at h2) (λ _. at h3) h2
          nothing_held
          (with_error-Ends (internal_failure (lit "install authorization policy")) _ (at h2)
            (λ _. at h3) h2 (acquire-Ends host.install_policy take_policy (at h2) c))
          (λ b e. (ap two e, refl)) in
      let third =
        cleaning-Ends {V = Unit {0}} (close_three host sandbox)
          (with_error _ (acquire host.open_connection take_connection)) (at h3) (λ _. at h4) h3
          nothing_held
          (with_error-Ends (internal_failure (lit "open ODBC credential resolver")) _ (at h3)
            (λ _. at h4) h3 (acquire-Ends host.open_connection take_connection (at h3) c))
          (λ b e. (ap three e, refl)) in
      let fourth =
        cleaning-Ends {V = Unit {0}} (λ b. close_three host sandbox (release_connection host b))
          (with_error _ (acquire host.register_resolver (λ h. h))) (at h4) (λ _. at h4) h4
          nothing_held
          (with_error-Ends (internal_failure (lit "install ODBC credential resolver")) _ (at h4)
            (λ _. at h4) h4 (acquire-Ends host.register_resolver (λ h. h) (at h4) c))
          (λ b e. (ap (λ h. three (drop h)) e, refl)) in
      let fifth =
        cleaning-Ends (release_connection host)
          (cleaning (close_three host sandbox) (serve host options)) (at h4) final
          (record h4 { database = false; sandbox = none; policy = false }) nothing_held
          (cleaning-Ends (close_three host sandbox) (serve host options) (at h4) final h4 _
            (serve-Ends host options h4 sandbox) (λ b e. (ap three e, refl)))
          (λ b e. (ap drop e, refl)) in
      then_Ends _ _ (record { held = h2; executed = loaded host options }) (λ _. at h2) final
        nothing_held first
        (λ _.
          then_Ends _ _ (at h2) (λ _. at h3) final nothing_held second
            (λ _.
              then_Ends _ _ (at h3) (λ _. at h4) final nothing_held third
                (λ _. then_Ends _ _ (at h4) (λ _. at h4) final nothing_held fourth (λ _. fifth))))
