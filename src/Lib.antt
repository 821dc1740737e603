-- ===== src/Lib.antt =====
-- A verification library of the borgo framework's TypeScript half: packages/borgo/src.
--
-- The go front answers the public port and hands page requests to the render service, which this
-- library models. A request must carry the key of this boot (Keys), its path is brought to its one
-- spelling (Canonical), middleware.ts is asked about it (Guard), a route is found for it (Router),
-- and the door it came to answers (Server). A post to an action is limited in size (Body) and must
-- echo the token of its cookies (Csrf) before the action runs (Action); actions and loaders call go
-- (ApiClient), and the cookies that go sets meanwhile pass to its later calls and to the loader
-- after it (Jar). A page is rendered with its props, its head and its token (RenderPage, Html), and
-- its document is streamed to the client (DocumentStream), which may subscribe to a live channel
-- (Channel). The page policies that let the front cache a page's html are read from the page
-- modules and the guard (Isr). A file of the public directory is answered from the index of boot or
-- from the disk (Assets). What a process may be configured to is read from its environment before
-- it boots (Settings).
--
-- Server: `fetch` and `handle` of server.ts, as the choice of who answers a request; PublicPath:
-- the tests of a path that may name a file, with `inHiddenDirectory` of compress.ts. Keys:
-- `keysEqual` of util.ts. Body: `parseContentLength`, `framedLength`, `readBodyWithin` and
-- `limitRequestBody` of util.ts. Csrf: `csrfCookieValue` of index.ts, `hasCookie` and `csrfRejects`
-- of util.ts. Action: `runAction` of util.ts, with the responses that it makes by `withCookies` and
-- `carryHeaders` in Responses. PropsRequest: `runPropsRequest` of util.ts. Settings: the readers of
-- the environment in util.ts, with the security headers (Settings/Security) and the topology of the
-- two processes (Settings/Topology). Assets: compress.ts, `recordedSize` and `pinPolicy` in Assets,
-- `pickEncoding` in Assets/Encoding, `assetEtag`, `isNotModified` and `isRangeStale` in
-- Assets/Validators, `serveIndexed` and `serveAsset` in Assets/Serve, `buildAssetIndex`,
-- `foldsCase` and `findAsset` in Assets/Index. RenderPage: `renderPage` of util.ts, with the
-- options of `runAction` of server.ts in RenderPage/Posted. Html: `escapeHtml`, `headHtml`,
-- `scriptJson` and `decodeHtmlText` of util.ts, `resolveHead` and `safeHeadAttrs` of router.ts.
-- DocumentStream: `documentStream` of compress.ts, as states and steps. Channel: `subscribe` of
-- index.ts, its handlers as steps. ApiClient: `makeApiClient` of api.ts, its path in
-- ApiClient/Path, its form, request and answer beside it, and its retries in ApiClient/Call. Jar:
-- `freshCookieHeader`, `cookieExpired`, `freshCookieRequest` and `requestApiClient` of util.ts.
-- Maps: `Map` with string keys. Canonical: `canonicalPath` of router.ts. Router: `safeDecode`,
-- `matchPattern` and `matchRoute` of router.ts. Guard: page-middleware.ts, its matcher entries in
-- Guard, the boot check `resolvePageMiddleware` in Guard/Boot, `decidePage` and `answerForDoor` in
-- Guard/Decide. Isr: isr.ts. Params: the objects of params that a match builds. Text: the methods
-- and regular expressions the source uses on strings, which are lists of UTF-16 code units, with
-- `decodeURIComponent` in Text/Uri. Result: steps that may throw. Common: shared names and lemmas.
-- Examples: tests, and the theorems at concrete inputs.
--
-- Loops over strings, arrays and streams are recursion on the list, and the retries of a call on
-- their number; only the digits of a number are written with fuel, of which one more than the
-- number is enough, as their round trips show. Error messages are constructors that keep what they
-- quote. Parameters stand for what is not in this repository or is no pure computation: an app's
-- middleware, a request's session and locals, the files of public and what `stat` tells of them
-- while one request is answered, actions, loaders and React, the outcome of `fetch`, the urls that
-- `URL` takes, the redaction of paths, json, the clock, the language's numbers and their rounding,
-- dates, the folding of case, the types of files, the NFC normal form, random bytes, and what
-- `Headers` refuses.
--
-- Not modelled: React, the split of a page's shell, the gzip stream of a response and the siblings
-- that a build writes, the variables that an app declares, the browser half, file watching, the
-- build and the command line, sockets, and the go half of the framework.
pub mod Common
pub mod Text
pub mod Result
pub mod Canonical
pub mod Params
pub mod Router
pub mod Guard
pub mod Isr
pub mod Keys
pub mod PublicPath
pub mod Body
pub mod Csrf
pub mod Responses
pub mod Action
pub mod PropsRequest
pub mod Settings
pub mod Assets
pub mod Maps
pub mod Jar
pub mod DocumentStream
pub mod Channel
pub mod ApiClient
pub mod Html
pub mod RenderPage
pub mod Server
pub mod Examples
