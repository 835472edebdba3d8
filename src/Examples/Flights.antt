-- ===== src/Examples/Flights.antt =====
-- Handlers at the same time, over the toy crates.
use ratewall.Prelude.{◌≡◌, refl, sym, true, false, none, some, [], ◌∷◌, inl}
use ratewall.Prelude.Text.{codes, text_eq}
use ratewall.Prelude.Table.{get, insert}
use ratewall.Circuit.{closed, try_admit, fresh}
use ratewall.Circuit.Callers
use ratewall.Circuit.Callers.{System, OneProbe, as_call, as_probe, outstanding}
use ratewall.Circuit.Registry.{new, admit_at}
use ratewall.Router.{ProxyState, split_path}
use ratewall.Router.Forward.{try_breaker}
use ratewall.Router.Fallback.{authenticate, proxy_fallback}
use ratewall.Router.Flights.{
  World, Flight, Reach, here, next, arrives, resumes, moved, begin, identify, route, resume,
  for_body, breaker_of, state_of,
}
use ratewall.Router.Flights.Counts.{total, total-nil}
use ratewall.Router.Flights.Drive.{drive, drive-begin}
use ratewall.Router.Flights.Refines.{Shows, Reach-Refines, Reach-OneProbe}
use ratewall.Examples.Crates.{toy_outside}
use ratewall.Examples.Circuits.{two_failures}
use ratewall.Examples.Tokens.{ann_request}
use ratewall.Examples.Scene.{proxy, shared, quiet, closed_crm, prefix, backend}

drive-begin_example :
    drive toy_outside proxy ann_request
      (quiet 20)
      4
      (begin toy_outside proxy ann_request (quiet 20) (shared true closed_crm))
    ≡ some (proxy_fallback toy_outside proxy ann_request (quiet 20) (shared true closed_crm))
drive-begin_example = drive-begin toy_outside proxy ann_request (quiet 20) (shared true closed_crm)

-- No gate and no limiter: a request waits for its body first.
abbrev plain_proxy : ProxyState toy_outside
plain_proxy = record proxy { auth = none; limiter = none }

abbrev idle : World toy_outside
idle = record { shared = shared true closed_crm; flights = [] }

abbrev arrived : World toy_outside
arrived =
    moved toy_outside [] [] ann_request
      (begin toy_outside plain_proxy ann_request (quiet 20) idle.shared)

abbrev buffering : Flight toy_outside
buffering = record {
  request = ann_request;
  waiting = for_body prefix backend (codes "/customers") closed;
}

abbrev sent : World toy_outside
sent =
    moved toy_outside [] [] ann_request
      (resume toy_outside plain_proxy ann_request (quiet 30) buffering.waiting arrived.shared)

-- A request arrives and its body is read.
abbrev run : Reach toy_outside plain_proxy false idle sent
unfolding begin identify route authenticate split_path try_breaker admit_at try_admit get text_eq
run =
    next (next here (arrives ann_request (quiet 20) refl))
      (resumes [] [] buffering (quiet 30) refl (λ call. absurd call) refl)

idle-Shows : Shows toy_outside plain_proxy false prefix two_failures idle (outstanding fresh 0 0)
unfolding get text_eq
idle-Shows = record {
  found = refl;
  calls = sym (total-nil toy_outside prefix as_call);
  probes = sym (total-nil toy_outside prefix as_probe);
}

Reach-Refines_example :
    (t : System) × Shows toy_outside plain_proxy false prefix two_failures sent t
    × Callers.Reach two_failures false (outstanding fresh 0 0) t
Reach-Refines_example =
    Reach-Refines toy_outside plain_proxy false prefix two_failures {w = idle} {u = sent}
      (outstanding fresh 0 0) idle-Shows run

Reach-OneProbe_example :
    OneProbe
      (state_of toy_outside (breaker_of toy_outside prefix sent.shared))
      (total toy_outside prefix as_probe sent.flights)
unfolding new insert
Reach-OneProbe_example =
    Reach-OneProbe toy_outside plain_proxy prefix
      (record { prefix = prefix; backend = backend } ∷ []) two_failures idle sent (inl refl) refl
      refl run
