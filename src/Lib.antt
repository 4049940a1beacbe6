-- ===== src/Lib.antt =====
-- A verification development for the Parse Embedded SDKs: what a device does with the text that comes
-- from the network, the requests that it builds, and the search page of the documentation.
--
-- The SDKs have two platforms. unix/src/parse.c (with unix/yun on top of it) talks through libcurl;
-- rtos/ talks through sockets that a port (cc3200/) gives it. Both keep a push connection open, read
-- it into a static buffer, cut the buffer into JSON messages by common/simplejson.c, and hand each
-- message to a callback of the application. The same file takes single values out of a JSON text:
-- the time of a message, the token or the id in the answer to a request, an error code.
--
-- The documentation under docs/html has a search panel on each page (`SearchBox`), which opens a page
-- of results in a frame (`SearchResults`); both are classes of docs/html/search/search.js. The panel
-- chooses the page by the first character of the text, from the tables of searchdata.js, and hands
-- the text on in the address; the page makes its rows of the entries in the script of its name, and
-- shows those that match. Tables and other parts of a page fold by docs/html/dynsections.js.
--
-- Files, and the code they model:
--   Base          the names, list lemmas and Boolean tests that the others share
--   CString       pointers and C strings: a pointer is the list of the bytes up to the end of its
--                 allocation, so that the empty list is a read out of bounds, and 0 ends a string
--   Json/Processor  common/simplejson.c: simpleJsonProcessor. `round` is a round of its first loop
--                 and `copy_round` one of its second; children: Fuel (the first loop ends), Bounds
--                 (what is written), Values (which value is found), Safety (what is read)
--   Json/Frame    common/simplejson.c: findJsonBeginning, findJsonEnd, findSecondJson,
--                 isCompleteJson and getPushJson; children: Steps (the scans on a message), Laws
--   Json/Messages the messages that the scans are to find, as trees, and their text
--   Push/Buffer   the receive buffer of a push service and the `int` that counts its used bytes
--   Unix/Push     unix/src/parse.c: parseProcessNextPushNotification, parseStopPushService and
--                 parseRunPushLoop; children: Messages (a call that delivers), Loop (many rounds),
--                 Stuck (calls after which the service is behind or stuck)
--   Rtos/Request  rtos/request.c: buildRequestHeaders, with the lines of rtos/http.c, in the static
--                 buffer of 1024 bytes; child: Laws
--   Rtos/Response rtos/http.c: getHttpResponseStatus and getHttpResponseBody, and parseGetErrorCode of
--                 rtos/request.c; child: Laws
--   Rtos/Send     rtos/request.c: sendRequest and parseSendRequestInternal; child: Laws
--   Rtos/Installation  rtos/installation.c, and parseSendRequest of rtos/request.c; children: Requests
--                 (what is sent for an installation), Laws
--   Rtos/Session  rtos/session.c; child: Laws
--   Rtos/Push     rtos/push.c: sendPing, parseProcessNextPushNotification and parseRunPushLoop over the
--                 sockets of the CC3200 port; children: Start (parseStartPushService, its handshake,
--                 parseStopPushService), Finish and Messages (a call that delivers), Handshake, Bounds
--                 (the used bytes), Full and Stuck (services that deliver nothing), Ping
--   Rtos/Client   parseInitialize of rtos/parse_impl.c, over the state file
--   Cc3200/Socket cc3200/src/socket.c: socketSslConnect, socketRead, socketWrite; children: Laws
--                 (a read), Connect
--   Cc3200/ClientState  cc3200/src/client_state.c, over the board's file system as a parameter
--                 (`FileSystem`, `IsLawful`); children: Save (the file), Load (the way back), Memory (a
--                 file system that meets the laws)
--   Cc3200/Clock  timeDiffInSec and isPingTime of cc3200/src/utils.c; child: Laws
--   Cc3200/Device fetchDeviceOSVersion and createNewInstallationId of the same file
--   Samples/Urlencode  cc3200/samples/blink/urlencode.c; child: Laws
--   Search/Ids    docs/html/search/search.js: convertToId, and the comparison of two ids
--   Search/Box    the same file: SearchBox, the panel of a page, less its Search; children: Timers
--                 (what the handlers set and clear), Laws (a page in use)
--   Search/Query  Search of a SearchBox, OnSelectItem and OnSearchSelectKey; child: Laws
--   Search/Results  SearchResults, the page of results: Search, NavNext, NavPrev and ProcessKeys;
--                 children: Rows (which results are shown), Moves (the nearest result shown)
--   Search/Page   createResults, init_search and FindChildElement; child: Laws
--   Search/Nav    Nav, NavChild and Toggle of SearchResults; child: Laws
--   Search/Windows  getXPos, getYPos, OnSearchFieldFocus, and where the panel puts its windows
--   Search/Escape  escape and unescape of the language, on code units; child: Laws
--   Search/Site   a site as its search meets it: pages with their entries, and addresses; children:
--                 Address (an address taken apart), Index (sections with a page for each character),
--                 Language (texts of ASCII), Shown (the rows of a page), Laws (a search, from the
--                 panel's field to the page of results)
--   Search/Sites  the two sites of the repository: searchdata.js and the scripts of entries under
--                 docs/html/search (child Sdk) and docs/yun/html/search (child Yun); child: Laws
--   Dynsections/Jquery  what docs/html/dynsections.js calls of jQuery, and what the calls do
--   Dynsections/Rows  updateStripes, toggleLevel and toggleFolder of that file; children: Stripes, Level,
--                 Folder (what a folder's click does), Twice (two clicks), Tree (the rows as a tree)
--   Dynsections/Sections  toggleVisibility and toggleInherit of that file; child: Laws
--   Json/Tests, Unix/Push/Tests, Rtos/Tests, Rtos/Push/Tests, Cc3200/Tests, Samples/Tests,
--   Search/Tests, Search/Sites/Tests, Dynsections/Tests
--                 concrete runs, and an instance of each theorem
--
-- State and operations. The fields of a client that the service uses and the static buffer are one
-- record, and a function of the source is a function from the state to an outcome: a fault (a read or
-- a write past an allocation), or the new state with the calls made outside, in order. What libcurl,
-- `select`, the clock and the board's calls answer are arguments, and so is how a request of the RTOS
-- client is answered where its installation and its session ask. A read of the RTOS push service is
-- socketRead itself, by what the board answers in each of its rounds; whether it is time for a ping is
-- an argument of a call, which Rtos/Push/Ping takes from the clock.
--
-- Bounds and fuel. `search` is the only loop on fuel in the C model, but for the digits of a
-- number. Every round of it reads on by a byte at least, so one more than the bytes of the
-- allocation is enough, and simple_json_processor gives it that. The other scans are structural. A
-- push buffer has 2048 bytes, and 1024 in rtos/push.c. Loops that wait for the network run over the
-- list of its answers. Counters of the scans are unbounded, as an `int` is for texts of
-- less than 2^31 bytes; the counts of socketRead wrap as the `short`s that they are.
--
-- Not modelled: how requests are sent through libcurl, and the keys and the session of the Unix client;
-- the Yun bridge; the samples but for the URL coding; the certificate file, the debug output, and what
-- only calls the operating system or the board's driver; of the documentation, jQuery, which is a library of its own. The calls of it are
-- the parameter `Jquery`, and what is used of them is `IsJquery`. What the language does in search.js
-- (toLowerCase, escape, unescape, a comparison of a text with a number) is a parameter of the
-- definitions; Search/Escape gives escape and unescape as the language defines them, and of
-- toLowerCase Search/Site takes what it does to ASCII. The scripts under docs/yun/html are copies of those under
-- docs/html, but for the tables and entries of the search.
pub mod Base
pub mod CString
pub mod Cc3200
pub mod Dynsections
pub mod Json
pub mod Push
pub mod Rtos
pub mod Samples
pub mod Search
pub mod Unix
