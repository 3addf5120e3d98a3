-- ===== src/Lib.antt =====
-- The front end of the voting application (FrontEnd/src, TypeScript with React).
--
-- The program is a page for voters (`Home`), with a modal in which a vote is cast, and an admin area.
-- The page gets the candidates and the voting status from a web socket, the modal sends requests to
-- the server, and both keep what the browser must remember in `localStorage`.
--
-- A component is a record of its `useState` and `useRef` values, and a function for each handler that
-- returns the new record. An `async` handler is two functions, up to its `await` and from the answer
-- on, so that other events can come between. What the browser and the server do is a data type of
-- events, `step` runs one of them, and `run` a list of them; most theorems are about every list. A
-- handler sees the state of the last render, since every event comes after a render.
--
-- - Types: FrontEnd/src/types/index.ts. Storage: the keys of `localStorage`. Decimal: `String(n)` and
--   `Number(s)` (the fuel of `show` is the number itself, and a number has at most that many digits
--   and one).
-- - Api: FrontEnd/src/services/api.ts, the requests and how an answer is read.
-- - Toasts: FrontEnd/src/context/ToastContext.tsx, with FrontEnd/src/components/Toaster.tsx
--   in Screen. WebSocket: FrontEnd/src/hooks/useWebSocket.ts. Fingerprint:
--   FrontEnd/src/hooks/useFingerprint.ts. Theme and ImageUrl: FrontEnd/src/utils, and the state and
--   view of FrontEnd/src/components/Navbar.tsx.
-- - VoteModal: FrontEnd/src/components/VoteModal.tsx. Its child Session adds the storage, the toasts
--   and the requests in flight, and says which events the view allows; View is what it shows.
-- - Countdown, CandidateCard, Home: FrontEnd/src/pages/Home.tsx and
--   FrontEnd/src/components/CandidateCard.tsx. Home.Clock is the dependency of the voting state on
--   the clock. Home.Page composes the page: its socket, its clock, the modal that is mounted, and
--   the modals that are gone but still wait for an answer; Home.View is what it shows. The vote
--   buttons behind an open modal stay in the keyboard's reach, so that `selectedCandidate` may
--   change under it: Home.Page gives the modal its new prop, and runs the rest of a handler that waits
--   with the candidate that it was called with. Home.Final and Home.Swapped are about the page after
--   a vote and about such a change.
-- - Admin: Auth is FrontEnd/src/context/AdminAuthContext.tsx with the 401 callback of
--   FrontEnd/src/services/api.ts and the form of FrontEnd/src/pages/admin/Login.tsx; Site is the
--   routes of FrontEnd/src/App.tsx and FrontEnd/src/components/ProtectedRoute.tsx; Entry is the
--   link that leads in and what the login page shows; Cards is the dashboard page's own part with the
--   cards, its forms and the password modal, which share its toasts; Panel is the site with these
--   Cards while the page is mounted, and passes their answers to the interceptor; Mounted says what
--   unmounts the page. Forms is the dashboard with its two candidate forms, whose submissions wait
--   for the promises of the dashboard's handlers. Dashboard, with its Handlers, is
--   FrontEnd/src/pages/admin/Dashboard.tsx with the modals for editing and deleting; Password,
--   Domains, CandidateForm and VotingControl are ChangePasswordModal.tsx, EmailDomainsCard.tsx,
--   CandidateForm.tsx and VotingControlCard.tsx of FrontEnd/src/components/admin;
--   CandidateForm.Image is FrontEnd/src/utils/cropImage.ts. Trim is the `trim` of strings, which
--   the cards and the form call.
--
-- Of React it is used that a component's render that calls fewer hooks than the one before is an error,
-- and that an error without an error boundary unmounts the application: Admin.Site.rerender is where
-- the login page does this. A state that is set and a navigation that follows it at once are rendered
-- together.
--
-- Texts that the code looks into are lists of UTF-16 code units (`Text`), other texts are opaque.
-- Times are milliseconds. Parameters stand for what is not in the repository: the answers of the
-- server, `JSON.parse` (its result), FingerprintJS, `crypto.randomUUID`, `toISOString`, the clock, the
-- build's environment, and the files that the browser reads and crops. Not modelled: styles and
-- icons, the DOM, the bodies of library components, and the delay with which a cell of the code is
-- given the focus.
pub mod Prelude
pub mod Types
pub mod Toasts
pub mod Decimal
pub mod Admin
pub mod Api
pub mod Storage
pub mod Theme
pub mod ImageUrl
pub mod Fingerprint
pub mod WebSocket
pub mod VoteModal
pub mod Countdown
pub mod CandidateCard
pub mod Home
mod Examples
